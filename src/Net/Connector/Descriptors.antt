-- ===== src/Net/Connector/Descriptors.antt =====
-- No descriptor is lost, and the delay stays within its bounds.
pub mod Turns
use mini_reactor.Base.{
  ℕ, ◌+◌, ◌≤◌, ◌<◌, ◌≡◌, ◌==◌, refl, sym, ap, ◌∙◌, if◌then◌else◌, if_holds, true, false, List, [],
  ◌∷◌, ◌++◌, Option, none, some, arith, Bool-cases, inl, inr, ◌⊎◌, subst,
}
use mini_reactor.Net.Connector.{
  State, disconnected, connecting, connected, Connector, Effect, opened, closed, handed,
  cancel_timer, Outcome, no_socket, bad_address, in_progress, again, fatal, also, retry, connect_,
  is_disconnected, start_in_loop, start, drop_connecting, stop_in_loop, stop, Verdict, success,
  failure, self_connect, hand_over, conclude, write_in, handle_write, reset_if, reset_channel, Step,
  starts, stops, timer, writable, step, turn, run,
}

abbrev is_fd : ℕ → ℕ → ℕ
is_fd fd x = if fd == x then 1 else 0

abbrev opens_of : ℕ → Effect → ℕ
opens_of fd (opened x) = is_fd fd x
opens_of fd _ = 0

abbrev ends_of : ℕ → Effect → ℕ
ends_of fd (closed x) = is_fd fd x
ends_of fd (handed x) = is_fd fd x
ends_of fd _ = 0

-- How often a descriptor was opened, and how often it was closed or handed over.
abbrev pub opens : ℕ → List Effect → ℕ
opens fd [] = 0
opens fd (e ∷ es) = opens_of fd e + opens fd es

abbrev pub ends : ℕ → List Effect → ℕ
ends fd [] = 0
ends fd (e ∷ es) = ends_of fd e + ends fd es

abbrev pub holds_in : ℕ → Option ℕ → ℕ
holds_in fd none = 0
holds_in fd (some x) = is_fd fd x

-- Whether the connector holds the descriptor.
abbrev pub holds : ℕ → Connector → ℕ
holds fd c = holds_in fd c.channel

abbrev pub SettledIn : State → Option ℕ → Type 0
SettledIn connecting channel = (fd : ℕ) × (channel ≡ some fd)
SettledIn _ channel = channel ≡ none

-- Between two turns: there is a channel exactly while the connector is connecting.
pub record IsSettled (c : Connector) : Type 0 where
  pub channel : SettledIn c.state c.channel
  pub resets : c.queued_resets ≡ 0
  pub some_delay : 0 < c.retry_delay
  pub bounded : c.retry_delay ≤ 60

-- Each descriptor that was opened or held was closed or handed over, once, or is held.
pub record Balances (fd : ℕ) (c : Connector) (result : List Effect × Connector) : Type 0 where
  pub settled : IsSettled result.1
  pub balance : opens fd result.0 + holds fd c ≡ ends fd result.0 + holds fd result.1

pub opens-append : (fd : ℕ) (es fs : List Effect) → opens fd (es ++ fs) ≡ opens fd es + opens fd fs
opens-append fd [] fs = omega arith
opens-append fd (e ∷ es) fs = omega (arith, opens-append fd es fs)

pub ends-append : (fd : ℕ) (es fs : List Effect) → ends fd (es ++ fs) ≡ ends fd es + ends fd fs
ends-append fd [] fs = omega arith
ends-append fd (e ∷ es) fs = omega (arith, ends-append fd es fs)

abbrev pub after : List Effect × Connector → List Effect × Connector
after (es, c) = (es, reset_channel c)

-- A result that gives one descriptor away and leaves nothing to wait for.
pub record Ends (fd x : ℕ) (c : Connector) (r : List Effect × Connector) : Type 0 where
  pub idle : SettledIn r.1.state none
  pub channel : r.1.channel ≡ c.channel
  pub queued : r.1.queued_resets ≡ c.queued_resets
  pub some_delay : 0 < r.1.retry_delay
  pub bounded : r.1.retry_delay ≤ 60
  pub no_opens : opens fd r.0 ≡ 0
  pub one_end : ends fd r.0 ≡ is_fd fd x

pub retry-Ends :
    (fd x : ℕ) (c : Connector) → 0 < c.retry_delay → c.retry_delay ≤ 60 → Ends fd x c (retry x c)
unfolding retry
retry-Ends fd x c low high = elim (Bool-cases c.connect) [
  | inl goes_on ↦ rw goes_on (record {
    idle = refl;
    channel = refl;
    queued = refl;
    some_delay = ground arith;
    bounded = ground arith;
    no_opens = omega arith;
    one_end = omega arith;
  })
  | inr given_up ↦ rw given_up (record {
    idle = refl;
    channel = refl;
    queued = refl;
    some_delay = low;
    bounded = high;
    no_opens = omega arith;
    one_end = omega arith;
  })
]

hand_over-ends :
    (fd x : ℕ) (c : Connector)
    → (opens fd (hand_over x c) ≡ 0) × (ends fd (hand_over x c) ≡ is_fd fd x)
hand_over-ends fd x c =
    if_holds (λ es. (opens fd es ≡ 0) × (ends fd es ≡ is_fd fd x)) c.connect _ _
      (if_holds (λ es. (opens fd es ≡ 0) × (ends fd es ≡ is_fd fd x)) c.new_connection_callback
        (handed x ∷ []) (closed x ∷ []) (omega arith) (omega arith))
      (omega arith)

conclude-Ends :
    (v : Verdict) (fd x : ℕ) (c : Connector)
    → 0 < c.retry_delay
    → c.retry_delay ≤ 60
    → Ends fd x c (conclude v x c)
conclude-Ends success fd x c low high =
    let (none_opened, given) = hand_over-ends fd x c in
    record {
      idle = refl;
      channel = refl;
      queued = refl;
      some_delay = omega arith;
      bounded = omega arith;
      no_opens = none_opened;
      one_end = given;
    }
conclude-Ends failure fd x c low high = retry-Ends fd x c low high
conclude-Ends self_connect fd x c low high = retry-Ends fd x c low high

-- With the queued reset, or with no channel in the first place, the channel is gone.
pub settle :
    (c : Connector)
    → SettledIn c.state none
    → 0 < c.retry_delay
    → c.retry_delay ≤ 60
    → ((c.queued_resets ≡ 0) × (c.channel ≡ none)) ⊎ (c.queued_resets ≡ 1)
    → IsSettled (reset_channel c) × ((reset_channel c).channel ≡ none)
unfolding reset_channel
settle c idle low high (inl (e, gone)) =
    subst (λ n. IsSettled (reset_if n c) × ((reset_if n c).channel ≡ none)) (sym e)
      (
        record {
          channel = subst (SettledIn c.state) (sym gone) idle;
          resets = e;
          some_delay = low;
          bounded = high;
        },
        gone,
      )
settle c idle low high (inr e) =
    subst (λ n. IsSettled (reset_if n c) × ((reset_if n c).channel ≡ none)) (sym e)
      (record { channel = idle; resets = refl; some_delay = low; bounded = high }, refl)

pub unchanged-Balances : (fd : ℕ) (c : Connector) → IsSettled c → Balances fd c (after ([], c))
unfolding reset_channel
unchanged-Balances fd c v =
    subst (λ n. Balances fd c ([], reset_if n c)) (sym v.resets)
      (record { settled = v; balance = refl })

write_in-Balances :
    (v : Verdict) (fd : ℕ) (s : State) (ch : Option ℕ) (c : Connector)
    → SettledIn s ch
    → c.channel ≡ ch
    → IsSettled c
    → Balances fd c (after (write_in v s ch c))
write_in-Balances v fd disconnected ch c e at w = unchanged-Balances fd c w
write_in-Balances v fd connected ch c e at w = unchanged-Balances fd c w
write_in-Balances v fd connecting none c e at w = unchanged-Balances fd c w
write_in-Balances v fd connecting (some x) c e at w =
    let c1 = record c { queued_resets = c.queued_resets + 1 } in
    let r = conclude-Ends v fd x c1 w.some_delay w.bounded in
    let (settled, gone) =
      settle (conclude v x c1).1 r.idle r.some_delay r.bounded
        (inr (r.queued ∙ omega (arith, w.resets))) in
    record {
      settled = settled;
      balance = omega (arith, r.no_opens, r.one_end, ap (holds_in fd) at, ap (holds_in fd) gone);
    }

pub handle_write-Balances :
    (v : Verdict) (fd : ℕ) (c : Connector) → IsSettled c → Balances fd c (after (handle_write v c))
unfolding handle_write
handle_write-Balances v fd c w = write_in-Balances v fd c.state c.channel c w.channel refl w
