-- ===== src/App/Dispatcher/Posting.antt =====
-- A comment that is posted over HTTP, and the list that is read back.
use mathlib.Core.Option
use mini_reactor.Base.{
  ◌+◌, ◌^◌, ◌<◌, ◌≡◌, ◌≢◌, refl, ap, ◌∙◌, subst, inl, inr, Bool, true, false, not, ◌&&◌,
  if◌then◌else◌, List, [], ◌∷◌, ◌++◌, Option, none, some, Option-cases, length, arith,
}
use mini_reactor.Base.Bytes.{codes, bytes_eq, lookup}
use mini_reactor.Http.Context.{HttpRequest}
use mini_reactor.App.Comments.{push_comment}
use mini_reactor.App.Comments.History.{Comment, Holds, push_comment-Holds}
use mini_reactor.App.Blacklist.{
  BlockReason, no_reason, nickname, ip, keyword, starts_with, check_comment,
}
use mini_reactor.App.Dispatcher.{
  Text, JsonLibrary, Server, Files, Metrics, RouteContext, is_form, form_of, blocked, block_message,
  crlf,
}
use mini_reactor.App.Dispatcher.Handlers.{handle_post_comment, post, two_fields, outcome}
use mini_reactor.App.Dispatcher.Texts.{
  form_only, cooling_down, account_blocked, account_blocked_end, stored_text,
}
use mini_reactor.App.Dispatcher.Routing.{
  route_of, response, default_context, counted, handle, dispatch,
}
use mini_reactor.App.Dispatcher.Reading.{dispatch-route}
use mini_reactor.App.Dispatcher.Utf8.{is_utf8, is_utf8-append, IsStrict}

-- The comment of a form, and whether it is taken.
abbrev pub comment_of : HttpRequest → Text → Comment
comment_of req client_ip = record {
  nickname = (form_of req.body).0;
  content = (form_of req.body).1;
  ip = client_ip;
}

abbrev pub is_blocked : Comment → Server → Bool
is_blocked c s = blocked (check_comment c.nickname c.ip c.content s.blacklist.rules).0

abbrev pub accepts : HttpRequest → Text → Server → Bool
accepts req client_ip s =
    is_form req.headers && (not s.cooldown_mode && not (is_blocked (comment_of req client_ip) s))

abbrev pub status_of : HttpRequest → Text → Server → Text
status_of req client_ip s =
    if not (is_form req.headers)
    then codes "HTTP/1.1 415 Unsupported Media Type" ++ crlf
    else if s.cooldown_mode
    then codes "HTTP/1.1 200 OK" ++ crlf
    else if is_blocked (comment_of req client_ip) s
    then codes "HTTP/1.1 403 Forbidden" ++ crlf
    else codes "HTTP/1.1 200 OK" ++ crlf

-- What holds of the branches holds of the whole.
branches {ℓ κ} :
    {A : Type ℓ} (P : Bool → Text → A → Type κ) (form cool bad : Bool)
    (unsupported ok forbidden : Text) (a b c d : A)
    → P false unsupported a
    → P false ok b
    → P false forbidden c
    → P true ok d
    → P
        (form && (not cool && not bad))
        (if not form then unsupported else if cool then ok else if bad then forbidden else ok)
        (if not form then a else if cool then b else if bad then c else d)
branches P false cool bad unsupported ok forbidden a b c d ha hb hc hd = ha
branches P true true bad unsupported ok forbidden a b c d ha hb hc hd = hb
branches P true false true unsupported ok forbidden a b c d ha hb hc hd = hc
branches P true false false unsupported ok forbidden a b c d ha hb hc hd = hd

block_message-utf8 :
    (reason : BlockReason) (nick : Text)
    → is_utf8 nick ≡ true
    → is_utf8 (block_message reason nick) ≡ true
unfolding is_utf8
block_message-utf8 nickname nick h =
    is_utf8-append account_blocked (nick ++ account_blocked_end) refl
      (is_utf8-append nick account_blocked_end h refl)
block_message-utf8 ip nick h = refl
block_message-utf8 keyword nick h = refl
block_message-utf8 no_reason nick h = refl

module _ (lib : JsonLibrary) (strict : IsStrict lib) where
  open lib use {Json, Double, text, dump}

  two_fields-dumps :
      (k v k' v' : Text)
      → is_utf8 k ≡ true
      → is_utf8 v ≡ true
      → is_utf8 k' ≡ true
      → is_utf8 v' ≡ true
      → dump (two_fields lib k v k' v') ≢ none
  two_fields-dumps k v k' v' hk hv hk' hv' =
      strict.pair_dumps k k' (text v) (text v') hk hk' (strict.text_dumps v hv)
        (strict.text_dumps v' hv')

  outcome-dumps :
      (result msg : Text)
      → is_utf8 result ≡ true
      → is_utf8 msg ≡ true
      → dump (outcome lib result msg) ≢ none
  unfolding is_utf8
  outcome-dumps result msg hr hm =
      two_fields-dumps (codes "result") result (codes "msg") msg refl hr refl hm

  -- The handler returns, with this status and a server of which this holds.
  abbrev pub Answers : (Server → Type 0) → Text → Option (RouteContext × Server) → Type 0
  Answers P status o =
      (ctx : RouteContext) × (s : Server) × (o ≡ some (ctx, s)) × (ctx.status_line ≡ status) × P s

  answer-Answers :
      (P : Server → Type 0) (status : Text) (g : Text → RouteContext) (j : Json) (s : Server)
      → ((b : Text) → (g b).status_line ≡ status)
      → dump j ≢ none
      → P s
      → Answers P status (Option.map (λ b. (g b, s)) (dump j))
  answer-Answers P status g j s line dumps p = elim (Option-cases (dump j)) [
    | inl throws ↦ absurd (dumps throws)
    | inr (b, is_b) ↦ (g b, s, rw is_b refl, line b, p)
  ]

  -- The history after the request, and what does not change.
  abbrev pub Took : Bool → Comment → List Comment → Server → Server → Type 0
  Took taken c h s s' =
      Holds (if taken then h ++ (c ∷ []) else h) s'.comments
      × (s'.blacklist ≡ s.blacklist)
      × (s'.cooldown_mode ≡ s.cooldown_mode)

  handle_post_comment-Answers :
      (req : HttpRequest) (client_ip : Text) (ctx : RouteContext) (s : Server) (h : List Comment)
      → ctx.status_line ≡ codes "HTTP/1.1 200 OK" ++ crlf
      → is_utf8 (form_of req.body).0 ≡ true
      → length h + 1 < 2 ^ 64
      → Holds h s.comments
      → Answers
          (Took (accepts req client_ip s) (comment_of req client_ip) h s)
          (status_of req client_ip s)
          (handle_post_comment lib req client_ip ctx s)
  unfolding handle_post_comment post is_utf8
  handle_post_comment-Answers req client_ip ctx s h ok valid fits holds =
      branches (λ taken status o. Answers (Took taken c h s) status o) (is_form req.headers)
        s.cooldown_mode (is_blocked c s) _ _ _ _ _ _ _
        (answer-Answers (Took false c h s) _ _ _ s (λ b. refl)
          (outcome-dumps (codes "ERROR") form_only refl refl) (holds, refl, refl))
        (answer-Answers (Took false c h s) _ _ _ s (λ b. refl)
          (outcome-dumps (codes "ERROR") cooling_down refl refl) (holds, refl, refl))
        (answer-Answers (Took false c h s) _ _ _ s (λ b. refl)
          (outcome-dumps (codes "ERROR") _ refl (block_message-utf8 _ c.nickname valid))
          (holds, refl, refl))
        (answer-Answers (Took true c h s) _ _ _ stored (λ b. ok)
          (outcome-dumps (codes "SUCCESS") stored_text refl refl)
          (push_comment-Holds c.nickname c.content c.ip h s.comments fits holds, refl, refl))
    where
      c : Comment
      c = comment_of req client_ip

      stored : Server
      stored = record s { comments = push_comment c.nickname c.content c.ip s.comments }

  starts_with-append : (p s : Text) → starts_with p (p ++ s) ≡ true
  starts_with-append [] s = refl
  starts_with-append (c ∷ p) s = ground (arith, starts_with-append p s)

  module _ (files : Files) (metrics : Metrics Double) where
    -- A form that is posted as a comment, with a nickname in UTF-8, is answered: the history grows by
    -- the comment exactly if the type is that of a form, the cooldown is off and no rule blocks it;
    -- else it stays. The first line is 415, 200, 403 or 200, in this order. The blacklist and the
    -- cooldown stay.
    pub dispatch-post_comment :
        (req : HttpRequest) (client_ip : Text) (s : Server) (h : List Comment)
        → req.method ≡ codes "POST"
        → req.path ≡ codes "/api/comment"
        → is_utf8 (form_of req.body).0 ≡ true
        → length h + 1 < 2 ^ 64
        → Holds h s.comments
        → (bytes : Text) × (s' : Server) × (dispatch lib files metrics req client_ip s
            ≡ some (bytes, s'))
          × (starts_with (status_of req client_ip s) bytes ≡ true)
          × Took (accepts req client_ip s) (comment_of req client_ip) h s s'
    unfolding handle route_of lookup bytes_eq response
    dispatch-post_comment req client_ip s h m p valid fits holds =
        let (ctx, s', found, line, took) =
          handle_post_comment-Answers req client_ip default_context (counted s) h refl valid fits
            holds in
        (
          response ctx,
          s',
          dispatch-route lib files metrics (codes "POST") (codes "/api/comment") req client_ip s m p
              ∙ ap (Option.map (λ (p : RouteContext × Server). (response p.0, p.1))) found,
          subst (λ t. starts_with t (response ctx) ≡ true) line
              (starts_with-append ctx.status_line _),
          took,
        )
