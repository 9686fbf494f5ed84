-- ===== src/App/Dispatcher/Control.antt =====
-- The commands of the agent: `HandleAgentControl` of app/dispatcher/HttpDispatcher.cpp.
use mini_reactor.Base.{
  ℕ, ◌+◌, ◌-◌, ◌^◌, ◌==◌, ltb, if◌then◌else◌, Bool, true, false, not, ◌&&◌, ◌||◌, List, [], ◌∷◌,
  ◌++◌, Option, none, some, length, drop,
}
use mini_reactor.Base.Bytes.{codes, bytes_eq, is_digit, skip_space, read_digits, plus}
use mini_reactor.Http.Context.{HttpRequest}
use mini_reactor.Log.Stream.{text_of}
use mini_reactor.App.Comments.{Repository, erase_comment}
use mini_reactor.App.Blacklist.{add_batch, starts_with}
use mini_reactor.App.Dispatcher.{Text, JsonLibrary, Server, RouteContext, json_type}
use mini_reactor.App.Dispatcher.Handlers.{answer, two_fields}
use mini_reactor.App.Dispatcher.Texts.{anonymous}

-- `std::stoull`; `none` stands for its two exceptions. A minus sign negates the value modulo 2^64.
abbrev pub in_range : Bool → ℕ → Option ℕ
in_range negative n =
    if ltb n (2 ^ 64) then some (if negative && ltb 0 n then 2 ^ 64 - n else n) else none

abbrev pub digits_of : Bool → Text → Option ℕ
digits_of negative [] = none
digits_of negative (c ∷ s) = if is_digit c then in_range negative (read_digits 0 (c ∷ s)) else none

abbrev pub signed_digits : Text → Option ℕ
signed_digits [] = none
signed_digits (c ∷ s) =
    if c == b'-'
    then digits_of true s
    else if c == b'+'
    then digits_of false s
    else digits_of false (c ∷ s)

unfoldable pub stoull : Text → Option ℕ
unfolding skip_space read_digits is_digit
stoull s = signed_digits (skip_space s)

-- `success_count`, `banned_nicks`, `banned_ips` and the repository in the loop over the targets.
pub record Erased : Type 0 where
  pub success_count : ℕ
  pub banned_nicks : List Text
  pub banned_ips : List Text
  pub comments : Repository

abbrev pub is_banned_nick : Text → Bool
is_banned_nick nick = ltb 0 (length nick) && not (bytes_eq nick anonymous)

-- One element, or none.
abbrev pub only_if : Bool → Text → List Text
only_if true s = s ∷ []
only_if false s = []

abbrev pub note_author : Option (Text × Text) × Repository → Erased → Erased
note_author (none, repo) e = record e { comments = repo }
note_author (some (nick, ip), repo) e = record {
  success_count = e.success_count + 1;
  banned_nicks = e.banned_nicks ++ only_if (is_banned_nick nick) nick;
  banned_ips = e.banned_ips ++ only_if (ltb 0 (length ip)) ip;
  comments = repo;
}

unfoldable pub erase_all : List ℕ → Erased → Erased
unfolding erase_comment bytes_eq
erase_all [] e = e
erase_all (seq ∷ seqs) e = erase_all seqs (note_author (erase_comment seq e.comments) e)

abbrev pub nothing_erased : Repository → Erased
nothing_erased repo = record {
  success_count = 0;
  banned_nicks = [];
  banned_ips = [];
  comments = repo;
}

-- The erasing of some comments, and the one write to the blacklist.
unfoldable pub erase_batch : Bool → List ℕ → Server → ℕ × Server
unfolding erase_all add_batch
erase_batch writable seqs s =
    let e = erase_all seqs (nothing_erased s.comments) in
    (
      e.success_count,
      record s {
        comments = e.comments;
        blacklist = (add_batch writable e.banned_nicks e.banned_ips s.blacklist).1;
      },
    )

-- One erased comment; the blacklist is left alone if there is none.
abbrev pub legacy_erase : Bool → ℕ → Server → Text × Server
legacy_erase writable seq s =
    let (count, s') = erase_batch writable (seq ∷ []) s in
    if count == 0
    then (codes "COMMENT_VERSION_MISMATCH", s)
    else (codes "LEGACY_COMMENT_ERASED", s')

-- The command of a JSON body: the cooldown, if there is one, or the comments to erase.
unfoldable pub handle_command : Bool → Option Bool → List ℕ → Server → Text × Server
unfolding erase_batch text_of
handle_command writable (some is_cooldown) seqs s = (
  if is_cooldown then codes "SYSTEM_COOLDOWN_ON" else codes "SYSTEM_COOLDOWN_OFF",
  record s { cooldown_mode = is_cooldown },
)
handle_command writable none seqs s =
    let (count, s') = erase_batch writable seqs s in
    if ltb 0 (length seqs)
    then (codes "BATCH_ERASED_" ++ text_of (plus count), s')
    else (codes "NO_VALID_TARGETS", s)

-- The text protocol, for a body that is no JSON.
unfoldable pub handle_legacy : Bool → Text → Server → Text × Server
unfolding stoull erase_batch
handle_legacy writable cmd s =
    if starts_with (codes "block_seq:") cmd || starts_with (codes "block_seq=") cmd
    then elim (stoull (drop 10 cmd)) [
      | none ↦ (codes "PARSE_ERROR", s)
      | some seq ↦ legacy_erase writable seq s
    ]
    else (codes "PARSE_ERROR", s)

abbrev pub kept_if : Option ℕ → List ℕ → List ℕ
kept_if none rest = rest
kept_if (some n) rest = n ∷ rest

-- A key that is there, with a value of the right type.
abbrev pub and_then {ℓ κ} : {A : Type ℓ} {B : Type κ} → Option A → (A → Option B) → Option B
and_then none f = none
and_then (some a) f = f a

module _ (lib : JsonLibrary) where
  open lib use {Json, parse, member, as_boolean, as_array, as_unsigned, as_number}

  unfoldable pub unsigned_items : List Json → List ℕ
  unsigned_items [] = []
  unsigned_items (item ∷ items) = kept_if (as_unsigned item) (unsigned_items items)

  -- `target_sequences`
  unfoldable pub targets : Json → List ℕ
  unfolding unsigned_items
  targets payload = elim (and_then (member (codes "block_seqs") payload) as_array) [
    | some items ↦ unsigned_items items
    | none ↦ kept_if (and_then (member (codes "block_seq") payload) as_number) []
  ]

  unfoldable pub handle_payload : Bool → Json → Server → Text × Server
  unfolding targets handle_command
  handle_payload writable payload s =
      handle_command writable (and_then (member (codes "cooldown") payload) as_boolean)
        (targets payload) s

  -- The action, and the state that it leaves.
  unfoldable pub take_action : Bool → Text → Server → Text × Server
  unfolding handle_payload handle_legacy
  take_action writable body s = elim (parse body) [
    | some payload ↦ handle_payload writable payload s
    | none ↦ handle_legacy writable body s
  ]

  unfoldable pub handle_agent_control :
      Bool → HttpRequest → RouteContext → Server → Option (RouteContext × Server)
  unfolding take_action bytes_eq
  handle_agent_control writable req ctx s =
      let (action, s') = take_action writable req.body s in
      answer lib (json_type ctx)
        (two_fields lib (codes "status")
          (if bytes_eq action (codes "PARSE_ERROR") then codes "ERROR" else codes "SUCCESS")
          (codes "action") action)
        s'
