-- ===== src/App/Dispatcher/Commands.antt =====
-- The agent's command to erase comments, and what it does to later requests.
use mathlib.Core.Option
use mini_reactor.Base.{
  ℕ, ltb, ◌≡◌, ◌≢◌, refl, sym, ap, ap₂, ◌∙◌, subst, Bool, true, false, not, ◌&&◌, ◌||◌, ◌⊎◌, inl,
  inr, Option, drop, List, [], ◌∷◌, ◌++◌, none, some, All, length, arith,
}
use mini_reactor.Base.Bytes.{codes, bytes_eq, lookup}
use mini_reactor.Http.Context.{HttpRequest}
use mini_reactor.App.Comments.History.{Comment, Holds}
use mini_reactor.App.Comments.Erasing.{recent, author, erase_comment-Holds}
use mini_reactor.App.Comments.{Repository, erase_comment}
use mini_reactor.App.Blacklist.{starts_with}
use mini_reactor.App.Dispatcher.{
  Text, JsonLibrary, Server, Files, Metrics, RouteContext, is_form, form_of,
}
use mini_reactor.App.Dispatcher.Control.{
  and_then, targets, erase_batch, erase_all, note_author, nothing_erased, stoull, handle_legacy,
  handle_command, handle_payload, take_action, handle_agent_control,
}
use mini_reactor.App.Dispatcher.Routing.{
  route_of, response, default_context, counted, handle, dispatch,
}
use mini_reactor.App.Dispatcher.Reading.{map-some, answer-keeps, dispatch-route}
use mini_reactor.App.Dispatcher.Posting.{comment_of, is_blocked, accepts}
use mini_reactor.App.Dispatcher.Moderation.{redact_all, IsSmall, IsFrom, erase_batch-bans}

All-middle :
    (P : ℕ → Type 0) (before after : List ℕ) (seq : ℕ) → All P (before ++ (seq ∷ after)) → P seq
All-middle P [] after seq all = all.0
All-middle P (j ∷ before) after seq all = All-middle P before after seq all.1

and_not : (a b c : Bool) → c ≡ true → (a && (not b && not c)) ≡ false
and_not false b c h = refl
and_not true true c h = refl
and_not true false c h = ap not h

accepts-blocked :
    (req : HttpRequest) (client_ip : Text) (s : Server)
    → is_blocked (comment_of req client_ip) s ≡ true
    → accepts req client_ip s ≡ false
accepts-blocked req client_ip s h = and_not (is_form req.headers) s.cooldown_mode _ h

some_target : (before after : List ℕ) (seq : ℕ) → ltb 0 (length (before ++ (seq ∷ after))) ≡ true
some_target [] after seq = ground arith
some_target (j ∷ before) after seq = ground arith

handle_command-erases :
    (writable : Bool) (seqs : List ℕ) (s : Server)
    → ltb 0 (length seqs) ≡ true
    → (handle_command writable none seqs s).1 ≡ (erase_batch writable seqs s).1
unfolding handle_command
handle_command-erases writable seqs s h = rw h refl

-- The text protocol: its first ten bytes, and the number behind them.
pub record NamesInText (body : Text) (seqs : List ℕ) : Type 0 where
  pub number : ℕ
  pub prefix :
      (starts_with (codes "block_seq:") body || starts_with (codes "block_seq=") body) ≡ true
  pub read : stoull (drop 10 body) ≡ some number
  pub only : seqs ≡ number ∷ []

only_one : (before after : List ℕ) (seq n : ℕ) → before ++ (seq ∷ after) ≡ n ∷ [] → (seq ≡ n)
only_one [] after seq n e = cc
only_one (j ∷ []) after seq n e = absurd (cc)
only_one (j ∷ k ∷ before) after seq n e = absurd (cc)

-- The erasure of a comment that is among the newest 50 succeeds.
counts_one :
    (writable : Bool) (seq : ℕ) (h : List Comment) (c : Comment) (s : Server)
    → IsSmall seq
    → recent seq h ≡ some c
    → Holds h s.comments
    → (erase_batch writable (seq ∷ []) s).0 ≡ 1
unfolding erase_batch erase_all
counts_one writable seq h c s small found holds =
    by_author (erase_comment seq s.comments)
      ((erase_comment-Holds seq h s.comments small holds).0 ∙ ap (Option.map author) found)
  where
    by_author :
        (r : Option (Text × Text) × Repository)
        → r.0 ≡ some (author c)
        → (note_author r (nothing_erased s.comments)).success_count ≡ 1
    by_author (none, repo) e = absurd (cc)
    by_author (some a, repo) e = refl

handle_legacy-erases :
    (writable : Bool) (body : Text) (seqs : List ℕ) (seq : ℕ) (h : List Comment) (c : Comment)
    (s : Server)
    → seqs ≡ seq ∷ []
    → (starts_with (codes "block_seq:") body || starts_with (codes "block_seq=") body) ≡ true
    → stoull (drop 10 body) ≡ some seq
    → IsSmall seq
    → recent seq h ≡ some c
    → Holds h s.comments
    → (handle_legacy writable body s).1 ≡ (erase_batch writable seqs s).1
unfolding handle_legacy
handle_legacy-erases writable body seqs seq h c s only p read small found holds =
    rw (p, read, counts_one writable seq h c s small found holds)
      (ap (λ l. (erase_batch writable l s).1) (sym only))

module _ (lib : JsonLibrary) (files : Files) (metrics : Metrics (lib.Double)) where
  open lib use {Json, parse, member, as_boolean}

  take_action-erases :
      (writable : Bool) (body : Text) (s : Server) (payload : Json) (seqs : List ℕ)
      → parse body ≡ some payload
      → and_then (member (codes "cooldown") payload) as_boolean ≡ none
      → targets lib payload ≡ seqs
      → ltb 0 (length seqs) ≡ true
      → (take_action lib writable body s).1 ≡ (erase_batch writable seqs s).1
  unfolding handle_payload take_action
  take_action-erases writable body s payload seqs parsed calm named some_ =
      ap (λ (r : Text × Server). r.1) json
      ∙ ap₂ (λ c t. (handle_command writable c t s).1) calm named
      ∙ handle_command-erases writable seqs s some_
    where
      json : take_action lib writable body s ≡ handle_payload lib writable payload s
      json = rw (parsed, take_action) refl

  -- A JSON body that names comments, and says nothing of the cooldown.
  pub record NamesInJson (body : Text) (seqs : List ℕ) : Type 0 where
    pub payload : Json
    pub parsed : parse body ≡ some payload
    pub calm : and_then (member (codes "cooldown") payload) as_boolean ≡ none
    pub named : targets lib payload ≡ seqs

  -- The comments that a command names, in JSON or, if the body is none, in the text protocol.
  abbrev pub Names : Text → List ℕ → Type 0
  Names body seqs = NamesInJson body seqs ⊎ ((parse body ≡ none) × NamesInText body seqs)

  take_action-Names :
      (writable : Bool) (body : Text) (s : Server) (seq : ℕ) (before after : List ℕ)
      (h : List Comment) (c : Comment)
      → Names body (before ++ (seq ∷ after))
      → IsSmall seq
      → recent seq h ≡ some c
      → Holds h s.comments
      → (take_action lib writable body s).1 ≡ (erase_batch writable (before ++ (seq ∷ after)) s).1
  unfolding take_action
  take_action-Names writable body s seq before after h c (inl j) small found holds =
      take_action-erases writable body s j.payload (before ++ (seq ∷ after)) j.parsed j.calm j.named
        (some_target before after seq)
  take_action-Names writable body s seq before after h c (inr (no_json, t)) small found holds =
      let same = only_one before after seq t.number t.only in
      ap (λ (r : Text × Server). r.1) text
      ∙ handle_legacy-erases writable body (before ++ (seq ∷ after)) seq h c s
          (t.only ∙ ap (λ n. n ∷ []) (sym same)) t.prefix (t.read ∙ ap (λ n. some n) (sym same))
          small found holds
    where
      text : take_action lib writable body s ≡ handle_legacy writable body s
      text = rw (no_json, take_action) refl

  -- The server after a command that names comments.
  dispatch-erases :
      (req : HttpRequest) (client_ip : Text) (s s' : Server) (bytes : Text) (seq : ℕ)
      (before after : List ℕ) (h : List Comment) (c : Comment)
      → req.method ≡ codes "POST"
      → req.path ≡ codes "/api/agent/control"
      → Names req.body (before ++ (seq ∷ after))
      → IsSmall seq
      → recent seq h ≡ some c
      → Holds h s.comments
      → dispatch lib files metrics req client_ip s ≡ some (bytes, s')
      → s' ≡ (erase_batch files.writable (before ++ (seq ∷ after)) (counted s)).1
  unfolding handle route_of lookup bytes_eq handle_agent_control
  dispatch-erases req client_ip s s' bytes seq before after h c m p names small found holds e =
      let (r, given, same) =
        map-some (λ (p : RouteContext × Server). (response p.0, p.1)) _ (bytes, s')
          (sym routed ∙ e) in
      ap (λ (p : Text × Server). p.1) (sym same)
      ∙ answer-keeps _ _ _ r given
      ∙ take_action-Names files.writable req.body (counted s) seq before after h c names small found
          (counted-Holds h s holds)
    where
      routed :
          dispatch lib files metrics req client_ip s
          ≡ Option.map
              (λ (p : RouteContext × Server). (response p.0, p.1))
              (handle_agent_control lib files.writable req default_context (counted s))
      routed =
          dispatch-route lib files metrics (codes "POST") (codes "/api/agent/control") req client_ip
            s m p

      counted-Holds :
          (h : List Comment) (s : Server) → Holds h s.comments → Holds h (counted s).comments
      counted-Holds h s holds = holds

  -- A request with the method POST to "/api/agent/control" that is answered, while the memory holds
  -- a history; its body is either JSON that names comments and has no Boolean for the cooldown, or
  -- no JSON and of the form "block_seq:" or "block_seq=" and a number. If each number that it names
  -- is below 2^64 - 1, so that it does not wrap, and it names a comment among the newest 50 before
  -- it names it again, then the memory holds the history with the named comments redacted, and no
  -- form with the comment's nickname (if it has one of its own) or from its address (if that is
  -- known) is accepted.
  pub dispatch-moderates :
      (req later : HttpRequest) (client_ip address : Text) (s s' : Server) (bytes : Text) (seq : ℕ)
      (before after : List ℕ) (h : List Comment) (c : Comment)
      → req.method ≡ codes "POST"
      → req.path ≡ codes "/api/agent/control"
      → Names req.body (before ++ (seq ∷ after))
      → All IsSmall (before ++ (seq ∷ after))
      → All (λ j. j ≢ seq) before
      → recent seq h ≡ some c
      → Holds h s.comments
      → dispatch lib files metrics req client_ip s ≡ some (bytes, s')
      → IsFrom c (form_of later.body).0 address
      → Holds (redact_all (before ++ (seq ∷ after)) h) s'.comments
        × (accepts later address s' ≡ false)
  dispatch-moderates req later client_ip address s s' bytes seq before after h c m p names small
        first found holds e from =
      let same =
        dispatch-erases req client_ip s s' bytes seq before after h c m p names
          (All-middle IsSmall before after seq small) found holds e in
      let (redacted, blocks) =
        erase_batch-bans files.writable before after seq h c (counted s) small first found holds in
      subst
        (λ t.
          Holds (redact_all (before ++ (seq ∷ after)) h) t.comments
          × (accepts later address t ≡ false))
        (sym same)
        (
          redacted,
          accepts-blocked later address
              (erase_batch files.writable (before ++ (seq ∷ after)) (counted s)).1
              (blocks (form_of later.body).0 address (form_of later.body).1 from),
        )
