-- ===== src/Net/Server/Descriptors.antt =====
-- Whom a descriptor belongs to: the list of what a loop runs, and the server's map.
pub mod Lists
pub mod Steps
use mini_reactor.Base.{
  ℕ, ◌+◌, ◌≤◌, ◌==◌, if◌then◌else◌, ◌≡◌, Bool, true, false, Option, none, some, List, [], ◌∷◌, ◌++◌,
  All,
}
use mini_reactor.Net.Server.{
  EventLoop, Handle, Functor, establishes, erases, destroys, TcpServer, AcceptResult, accepted,
  interrupted, would_block, accept_error, Step, readable, hangs_up, runs, new_connection,
}
use mini_reactor.Net.Server.Rounds.{IsServing}

abbrev pub hit : ℕ → ℕ → ℕ
hit x y = if x == y then 1 else 0

-- How many elements have a number.
abbrev pub count : {A : Type 0} → (A → ℕ) → ℕ → List A → ℕ
count number y [] = 0
count number y (a ∷ xs) = hit (number a) y + count number y xs

abbrev pub self : ℕ → ℕ
self x = x

abbrev pub handle_of : Functor → Handle
handle_of (establishes c) = c
handle_of (erases c) = c
handle_of (destroys c) = c

abbrev pub fd_of : EventLoop × Functor → ℕ
fd_of (l, f) = (handle_of f).fd

abbrev pub up_fd : Handle → ℕ
up_fd c = c.fd

abbrev pub IsRegistered : (ℕ → Option Handle) → Handle → Type 0
IsRegistered m c = m c.fd ≡ some c

-- The map has a connection until it is erased, and has nothing in its place until it is destroyed.
abbrev pub Fits : (ℕ → Option Handle) → Functor → Type 0
Fits m (establishes c) = IsRegistered m c
Fits m (erases c) = IsRegistered m c
Fits m (destroys c) = m c.fd ≡ none

abbrev pub FitsItem : (ℕ → Option Handle) → EventLoop × Functor → Type 0
FitsItem m (l, f) = Fits m f

-- The open descriptors are those of the connections that are up or in a queue, each of one of them.
pub record Owns (s : TcpServer) : Type 0 where
  pub serving : IsServing s.pool
  pub owned :
      (x : ℕ) → count self x s.open_fds ≡ count fd_of x s.queue + count up_fd x s.established
  pub once : (x : ℕ) → count self x s.open_fds ≤ 1
  pub queued : All (FitsItem s.connections) s.queue
  pub registered : All (IsRegistered s.connections) s.established

-- The kernel gives a descriptor that is not open.
abbrev pub AreFresh : List AcceptResult → TcpServer → Type 0
AreFresh [] s = Unit
AreFresh (accepted fd ∷ rs) s =
    (count self fd s.open_fds ≡ 0)
    × AreFresh rs (new_connection fd (record s { open_fds = fd ∷ s.open_fds }))
AreFresh (interrupted ∷ rs) s = AreFresh rs s
AreFresh (would_block ∷ rs) s = Unit
AreFresh (accept_error ∷ rs) s = Unit

abbrev pub Allows : TcpServer → Step → Type 0
Allows s (readable rs) = AreFresh rs s
Allows s (hangs_up fd) = Unit
Allows s (runs l) = Unit
