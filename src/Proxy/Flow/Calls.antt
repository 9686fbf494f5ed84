-- ===== src/Proxy/Flow/Calls.antt =====
-- The flow control over the calls of the session.
use mini_reactor.Base.{
  ◌≡◌, refl, sym, ap, ◌∙◌, subst, Bool, true, false, List, [], ◌∷◌, ◌++◌, if_holds, if_cases, arith,
  if◌then◌else◌,
}
use mini_reactor.Net.Connection.{Connection, Effect}
use mini_reactor.Proxy.{
  Peer, upstream, downstream, Side, Session, other, side, with_side, pause, on_high_water, crosses,
  is_complete, notices, react, call, is_connecting,
}
use mini_reactor.Proxy.Flow.{completes, TellsAll}
use mini_reactor.Proxy.Flow.Links.{Link, pausing, call_sink, call_source}

abbrev same : Peer → Peer → Bool
same upstream upstream = true
same downstream downstream = true
same _ _ = false

-- Whether a notice of the connection to the peer is queued.
abbrev pub has : Peer → List Peer → Bool
has p [] = false
has p (q ∷ qs) = if same p q then true else has p qs

same_self : (p : Peer) → same p p ≡ true
same_self upstream = refl
same_self downstream = refl

has-append : (p : Peer) (l m : List Peer) → has p l ≡ true → has p (l ++ m) ≡ true
has-append p [] m h = absurd (ground arith)
has-append p (q ∷ l) m h =
    if_cases (λ b. b ≡ true) (same p q) true (has p (l ++ m)) (λ k. refl)
      (λ k. has-append p l m (sym (ap (λ b. if b then true else has p l) k) ∙ h))

has_behind : (p : Peer) (l m : List Peer) → has p m ≡ true → has p (l ++ m) ≡ true
has_behind p [] m h = h
has_behind p (q ∷ l) m h =
    if_holds (λ b. b ≡ true) (same p q) true (has p (l ++ m)) refl (has_behind p l m h)

has-notices : (p : Peer) (es : List Effect) → completes es ≡ true → has p (notices p es) ≡ true
has-notices p [] h = absurd (ground arith)
has-notices p (e ∷ es) h =
    if_cases (λ l. has p l ≡ true) (is_complete e) (p ∷ notices p es) (notices p es)
      (λ k. ap (λ b. if b then true else has p (notices p es)) (same_self p))
      (λ k. has-notices p es (sym (ap (λ b. if b then true else completes es) k) ∙ h))

-- The connection to the upstream is there, and each direction is controlled.
pub record Joined (s : Session) : Type 0 where
  pub alive : s.tearing_down ≡ false
  pub there : is_connecting s.up.conn.state ≡ false
  pub to_up : Link s.up s.down (has upstream s.queued)
  pub to_down : Link s.down s.up (has downstream s.queued)

-- What `react` does to a session that is not torn down.
reacted : Peer → List Effect → Session → Session
reacted p es s =
    with_side (other p) (pausing (crosses es) (side (other p) s))
      (record s { queued = s.queued ++ notices p es })

react-reacted :
    (p : Peer) (es : List Effect) (s : Session)
    → s.tearing_down ≡ false
    → react p es s ≡ reacted p es s
unfolding react reacted on_high_water
react-reacted p es s h = on p (crosses es)
  where
    queue : Session
    queue = record s { queued = s.queued ++ notices p es }

    on :
        (q : Peer) (b : Bool)
        → (if b then on_high_water q queue else queue)
          ≡ with_side (other q) (pausing b (side (other q) s)) queue
    on upstream true =
        if_cases (λ t. t ≡ with_side downstream (pause s.down) queue) s.tearing_down _ _
          (λ k. absurd (ground arith)) (λ k. refl)
    on downstream true =
        if_cases (λ t. t ≡ with_side upstream (pause s.up) queue) s.tearing_down _ _
          (λ k. absurd (ground arith)) (λ k. refl)
    on upstream false = refl
    on downstream false = refl

state_kept : (b : Bool) (x : Side) → (pausing b x).conn.state ≡ x.conn.state
unfolding pause
state_kept true x = if_holds (λ (y : Side). y.conn.state ≡ x.conn.state) _ _ x refl refl
state_kept false x = refl

pub call-Joined :
    (p : Peer) (r : List Effect × Connection) (s : Session)
    → Joined s
    → TellsAll (side p s).conn r
    → Joined (call p r s).1
unfolding call reacted
call-Joined upstream (es, c) s j t =
    subst Joined
      (sym (react-reacted upstream es (with_side upstream (record (s.up) { conn = c }) s) j.alive))
      (record {
        alive = j.alive;
        there = ap is_connecting t.state ∙ j.there;
        to_up =
            call_sink s.up s.down _ _ es c j.to_up t (has-append upstream s.queued _)
              (λ k. has_behind upstream s.queued _ (has-notices upstream es k));
        to_down = call_source s.up s.down _ _ es c j.to_down t (has-append downstream s.queued _);
      })
call-Joined downstream (es, c) s j t =
    subst Joined
      (sym (
        react-reacted downstream es (with_side downstream (record (s.down) { conn = c }) s)
          j.alive))
      (record {
        alive = j.alive;
        there = ap is_connecting (state_kept (crosses es) s.up) ∙ j.there;
        to_up = call_source s.down s.up _ _ es c j.to_up t (has-append upstream s.queued _);
        to_down =
            call_sink s.down s.up _ _ es c j.to_down t (has-append downstream s.queued _)
              (λ k. has_behind downstream s.queued _ (has-notices downstream es k));
      })
