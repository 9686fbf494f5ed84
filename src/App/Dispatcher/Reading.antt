-- ===== src/App/Dispatcher/Reading.antt =====
-- What a request cannot do: which requests leave the stores alone, and which files are read.
use mathlib.Core.Option
use mini_reactor.Base.{
  ℕ, ◌≡◌, ◌≢◌, ◌⊎◌, refl, sym, ap, ap₂, ◌∙◌, subst, inl, inr, Bool, true, false, List, [], ◌∷◌,
  ◌++◌, Option, none, some, All, Bool-cases, Option-cases, arith,
}
use mini_reactor.Base.Bytes.{codes, bytes_eq, eq_of_bytes_eq, lookup, Lacks}
use mini_reactor.Http.Context.{HttpRequest}
use mini_reactor.App.Dispatcher.{Text, JsonLibrary, Server, Files, Metrics, RouteContext}
use mini_reactor.App.Dispatcher.Handlers.{
  start_of, handle_monitor, handle_get_comments, handle_stress, handle_agent_telemetry,
}
use mini_reactor.App.Dispatcher.Routing.{
  Route, monitor, post_comment, get_comments, stress, telemetry, control, reload_blacklist, router,
  route_of, response, default_context, counted, handle, handle_route, dispatch,
}

pub some_inj {ℓ} : {A : Type ℓ} {a b : A} → some a ≡ some b → a ≡ b
some_inj e = cc

-- What holds of the value of each key that equals the one looked up holds of the value found.
pub lookup_induction {ℓ κ} :
    {V : Type ℓ} (P : V → Type κ) (k : Text) (m : List (Text × V)) (v : V)
    → All (λ (e : Text × V). bytes_eq e.0 k ≡ true → P e.1) m
    → lookup k m ≡ some v
    → P v
unfolding lookup
lookup_induction P k [] v each found = absurd (ground (arith, found))
lookup_induction P k ((j, w) ∷ m) v each found = elim (Bool-cases (bytes_eq j k)) [
  | inl same ↦ subst P (some_inj (rw same at found)) (each.0 same)
  | inr other ↦ lookup_induction P k m v each.1 (rw other at found)
]

append-Lacks : (c : ℕ) (s t : Text) → Lacks c (s ++ (c ∷ t)) → ⊥
append-Lacks c [] t h = h.0 refl
append-Lacks c (x ∷ s) t h = append-Lacks c s t h.1

-- A text is split at its only ':' in one way.
split_once :
    (a b m p : Text)
    → Lacks b':' a
    → Lacks b':' b
    → a ++ (b':' ∷ b) ≡ m ++ (b':' ∷ p)
    → (m ≡ a) × (p ≡ b)
split_once [] b [] p ha hb e = (refl, cc)
split_once [] b (y ∷ m) p ha hb e =
    let e' : b ≡ m ++ (b':' ∷ p) = cc in absurd (append-Lacks b':' m p (subst (Lacks b':') e' hb))
split_once (x ∷ a) b [] p ha hb e = absurd (ha.0 (cc))
split_once (x ∷ a) b (y ∷ m) p ha hb e =
    let e' : x ≡ y = cc in
    let (left, right) = split_once a b m p ha.1 hb (cc) in (rw (e', left) refl, right)

pub is_post :
    (b m p : Text)
    → Lacks b':' b
    → bytes_eq (codes "POST" ++ (b':' ∷ b)) (m ++ (b':' ∷ p)) ≡ true
    → (m ≡ codes "POST") × (p ≡ b)
is_post b m p hb e = split_once (codes "POST") b m p (omega arith) hb (eq_of_bytes_eq _ _ e)

abbrev pub writes : Route → Bool
writes monitor = false
writes post_comment = true
writes get_comments = false
writes stress = false
writes telemetry = false
writes control = true
writes reload_blacklist = true

route_of-reads :
    (method path : Text) (r : Route)
    → method ≢ codes "POST"
    → route_of method path ≡ some r
    → writes r ≡ false
unfolding route_of bytes_eq
route_of-reads method path r other e =
    elim (Option-cases (lookup (method ++ (b':' ∷ path)) router)) [
      | inl missing ↦
          lookup_induction (λ r. writes r ≡ false) (codes "GET:" ++ path) router r reads_under_get
            (rw (missing, route_of) at e)
      | inr (found, is_found) ↦
          subst (λ r. writes r ≡ false) (some_inj (rw (is_found, route_of) at e))
            (lookup_induction (λ r. writes r ≡ false) (method ++ (b':' ∷ path)) router found
              (reads_unless_post) is_found)
    ]
  where
    reads_under_get :
        All
          (λ (e : Text × Route). bytes_eq e.0 (codes "GET:" ++ path) ≡ true → writes e.1 ≡ false)
          router
    reads_under_get = (
      λ _. refl,
      (
        λ h. absurd (cc),
        (λ _. refl, (λ _. refl, (λ _. refl, (λ h. absurd (cc), (λ h. absurd (cc), tt))))),
      ),
    )

    posted :
        (b : Text)
        → Lacks b':' b
        → bytes_eq (codes "POST" ++ (b':' ∷ b)) (method ++ (b':' ∷ path)) ≡ true
        → ⊥
    posted b hb h = other (is_post b method path hb h).0

    reads_unless_post :
        All
          (λ (e : Text × Route). bytes_eq e.0 (method ++ (b':' ∷ path)) ≡ true → writes e.1 ≡ false)
          router
    reads_unless_post = (
      λ _. refl,
      (
        λ h. absurd (posted (codes "/api/comment") (omega arith) h),
        (
          λ _. refl,
          (
            λ _. refl,
            (
              λ _. refl,
              (
                λ h. absurd (posted (codes "/api/agent/control") (omega arith) h),
                (λ h. absurd (posted (codes "/api/admin/reload_blacklist") (omega arith) h), tt),
              ),
            ),
          ),
        ),
      ),
    )

-- The route of the monitor has one path.
abbrev AtMonitor : Text → Route → Type 0
AtMonitor path monitor = path ≡ codes "/api/monitor"
AtMonitor path _ = Unit

route_of-AtMonitor :
    (method path : Text) (r : Route) → route_of method path ≡ some r → AtMonitor path r
unfolding route_of bytes_eq
route_of-AtMonitor method path r e = elim (Option-cases (lookup (method ++ (b':' ∷ path)) router)) [
  | inl missing ↦
      lookup_induction (AtMonitor path) (codes "GET:" ++ path) router r
        (
          at_monitor (codes "GET"),
          (λ _. tt, (λ _. tt, (λ _. tt, (λ _. tt, (λ _. tt, (λ _. tt, tt)))))),
        )
        (rw (missing, route_of) at e)
  | inr (found, is_found) ↦ subst (AtMonitor path) (some_inj (rw (is_found, route_of) at e)) (
      lookup_induction (AtMonitor path) (method ++ (b':' ∷ path)) router found
        (at_monitor method, (λ _. tt, (λ _. tt, (λ _. tt, (λ _. tt, (λ _. tt, (λ _. tt, tt)))))))
        is_found)
]
  where
    at_monitor :
        (m : Text)
        → bytes_eq (codes "GET:/api/monitor") (m ++ (b':' ∷ path)) ≡ true
        → path ≡ codes "/api/monitor"
    at_monitor m h =
        (split_once (codes "GET") (codes "/api/monitor") m path (omega arith) (omega arith)
          (eq_of_bytes_eq _ _ h)).1

pub map-some {ℓ κ} :
    {A : Type ℓ} {B : Type κ} (f : A → B) (o : Option A) (b : B)
    → Option.map f o ≡ some b
    → (a : A) × (o ≡ some a) × (f a ≡ b)
map-some f none b e = absurd (ground (arith, e))
map-some f (some a) b e = (a, refl, some_inj e)

-- An answer of `dump` leaves the state that it was given.
pub answer-keeps :
    (g : Text → RouteContext) (o : Option Text) (s : Server) (r : RouteContext × Server)
    → Option.map (λ b. (g b, s)) o ≡ some r
    → r.1 ≡ s
answer-keeps g o s r e =
    let (b, _, same) =
      map-some (λ (b : Text). let p : RouteContext × Server = (g b, s) in p) o r e in
    ap (λ (p : RouteContext × Server). p.1) (sym same)

-- A handler that reads sets the start of the monitor at most.
abbrev after_reading : {Double : Type 0} → Metrics Double → Route → Server → Server
after_reading m monitor s = record s { start_time = some (start_of m s.start_time) }
after_reading m _ s = s

module _ (lib : JsonLibrary) where
  open lib use {Double}

  module _ (files : Files) (metrics : Metrics Double) where
    pub handle-keeps :
        (route : Route) (req : HttpRequest) (client_ip : Text) (ctx : RouteContext) (s : Server)
        (r : RouteContext × Server)
        → writes route ≡ false
        → handle lib files metrics route req client_ip ctx s ≡ some r
        → r.1 ≡ after_reading metrics route s
    unfolding handle handle_monitor handle_get_comments handle_stress handle_agent_telemetry
    handle-keeps monitor req client_ip ctx s r w e =
        answer-keeps _ _ (after_reading metrics monitor s) r e
    handle-keeps post_comment req client_ip ctx s r w e = absurd (cc)
    handle-keeps get_comments req client_ip ctx s r w e = answer-keeps _ _ s r e
    handle-keeps stress req client_ip ctx s r w e = answer-keeps _ _ s r e
    handle-keeps telemetry req client_ip ctx s r w e = answer-keeps _ _ s r e
    handle-keeps control req client_ip ctx s r w e = absurd (cc)
    handle-keeps reload_blacklist req client_ip ctx s r w e = absurd (cc)

    pub dispatch-inv :
        (req : HttpRequest) (client_ip : Text) (s s' : Server) (bytes : Text)
        → dispatch lib files metrics req client_ip s ≡ some (bytes, s')
        → (ctx : RouteContext) × (handle_route lib files metrics
              (route_of req.method req.path)
              req
              client_ip
              default_context
              (counted s)
            ≡ some (ctx, s'))
          × (bytes ≡ response ctx)
    unfolding dispatch
    dispatch-inv req client_ip s s' bytes e =
        let ((ctx, s2), found, same) =
          map-some (λ (p : RouteContext × Server). (response p.0, p.1)) _ (bytes, s') e in
        let left : response ctx ≡ bytes = ap (λ (p : Text × Server). p.0) same in
        let right : s2 ≡ s' = ap (λ (p : Text × Server). p.1) same in
        (ctx, found ∙ ap (λ (t : Server). some (ctx, t)) right, sym left)

    -- A request whose method and path are known goes to their route.
    pub dispatch-route :
        (method path : Text) (req : HttpRequest) (client_ip : Text) (s : Server)
        → req.method ≡ method
        → req.path ≡ path
        → dispatch lib files metrics req client_ip s
          ≡ Option.map
              (λ (p : RouteContext × Server). (response p.0, p.1))
              (handle_route lib files metrics
                (route_of method path)
                req
                client_ip
                default_context
                (counted s))
    unfolding dispatch
    dispatch-route method path req client_ip s m p =
        ap₂
          (λ m p.
            Option.map (λ (p : RouteContext × Server). (response p.0, p.1))
              (handle_route lib files metrics (route_of m p) req client_ip default_context
                (counted s)))
          m p

    -- What a request that reads leaves: the counter has gone up by one modulo 2^64, and the monitor
    -- has its start, if the path is the monitor's.
    abbrev pub KeepsStores : Text → Server → Server → Type 0
    KeepsStores path s s' =
        (s' ≡ counted s)
        ⊎ ((path ≡ codes "/api/monitor")
            × (s' ≡ record (counted s) { start_time = some (start_of metrics s.start_time) }))

    -- A request with another method than POST that is answered changes nothing but the request
    -- counter, which goes up by one modulo 2^64, and at the path "/api/monitor" the start time of
    -- the monitor, which is set if it was not and else kept.
    pub dispatch-reads :
        (req : HttpRequest) (client_ip : Text) (s s' : Server) (bytes : Text)
        → req.method ≢ codes "POST"
        → dispatch lib files metrics req client_ip s ≡ some (bytes, s')
        → KeepsStores req.path s s'
    dispatch-reads req client_ip s s' bytes other e =
        let (ctx, found, _) = dispatch-inv req client_ip s s' bytes e in
        elim (Option-cases (route_of req.method req.path)) [
          | inl missing ↦
              inl (ap (λ (p : RouteContext × Server). p.1) (sym (some_inj (rw missing at found))))
          | inr (route, is_route) ↦
              by_route route (route_of-AtMonitor req.method req.path route is_route) (
                handle-keeps route req client_ip default_context (counted s) (ctx, s')
                  (route_of-reads req.method req.path route other is_route) (rw is_route at found))
        ]
      where
        by_route :
            (route : Route)
            → AtMonitor req.path route
            → s' ≡ after_reading metrics route (counted s)
            → KeepsStores req.path s s'
        by_route monitor at same = inr (at, same)
        by_route post_comment at same = inl same
        by_route get_comments at same = inl same
        by_route stress at same = inl same
        by_route telemetry at same = inl same
        by_route control at same = inl same
        by_route reload_blacklist at same = inl same
