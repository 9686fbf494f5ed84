-- ===== src/App/Dispatcher/Access.antt =====
-- Who may change the blacklist, and which files are served.
use mathlib.Core.Option
use mini_reactor.Base.{
  ◌≡◌, ◌≢◌, refl, sym, ap, ◌∙◌, inl, inr, true, false, ◌∷◌, ◌++◌, Option, none, some, Bool-cases,
  Option-cases, if_holds, not, subst, arith,
}
use mini_reactor.Base.Bytes.{codes, bytes_eq, lookup}
use mini_reactor.Http.Context.{HttpRequest}
use mini_reactor.App.Blacklist.{Manager, starts_with, contains}
use mini_reactor.App.Dispatcher.{
  Text, JsonLibrary, Server, Files, Metrics, RouteContext, handle_static_file, is_form, is_admin,
  target_path,
}
use mini_reactor.App.Dispatcher.Handlers.{handle_post_comment, handle_admin_reload_blacklist, post}
use mini_reactor.App.Dispatcher.Control.{handle_agent_control}
use mini_reactor.App.Dispatcher.Routing.{
  Route, monitor, post_comment, get_comments, stress, telemetry, control, reload_blacklist, router,
  route_of, response, default_context, counted, handle, handle_route, dispatch,
}
use mini_reactor.App.Dispatcher.Reading.{
  some_inj, lookup_induction, is_post, answer-keeps, handle-keeps, dispatch-inv,
}

-- The route of the agent's commands has one path.
abbrev AtControl : Text → Route → Type 0
AtControl path control = path ≡ codes "/api/agent/control"
AtControl path _ = Unit

route_of-AtControl :
    (method path : Text) (r : Route) → route_of method path ≡ some r → AtControl path r
unfolding route_of bytes_eq
route_of-AtControl method path r e = elim (Option-cases (lookup (method ++ (b':' ∷ path)) router)) [
  | inl missing ↦
      lookup_induction (AtControl path) (codes "GET:" ++ path) router r
        (λ _. tt, (λ _. tt, (λ _. tt, (λ _. tt, (λ _. tt, (λ h. absurd (cc), (λ _. tt, tt)))))))
        (rw (missing, route_of) at e)
  | inr (found, is_found) ↦ subst (AtControl path) (some_inj (rw (is_found, route_of) at e)) (
      lookup_induction (AtControl path) (method ++ (b':' ∷ path)) router found
        (λ _. tt, (λ _. tt, (λ _. tt, (λ _. tt, (λ _. tt, (at_control, (λ _. tt, tt))))))) is_found)
]
  where
    at_control :
        bytes_eq (codes "POST:/api/agent/control") (method ++ (b':' ∷ path)) ≡ true
        → path ≡ codes "/api/agent/control"
    at_control h = (is_post (codes "/api/agent/control") method path (omega arith) h).1

-- The result, if there is one, has the blacklist.
abbrev KeepsRules : Manager → Option (RouteContext × Server) → Type 0
KeepsRules m o = (r : RouteContext × Server) → o ≡ some r → r.1.blacklist ≡ m

handle_static_file-www :
    (files files' : Files) (req : HttpRequest) (ctx : RouteContext)
    → ((p : Text)
        → starts_with (codes "./www") p ≡ true
        → contains (codes "..") p ≡ false
        → files.read p ≡ files'.read p)
    → handle_static_file files req ctx ≡ handle_static_file files' req ctx
unfolding handle_static_file
handle_static_file-www files files' req ctx agree =
    elim (Bool-cases (contains (codes "..") req.path)) [
      | inl outside ↦ rw outside refl
      | inr inside ↦
          rw (agree (target_path req.path) (starts req.path) (below req.path inside)) refl
    ]
  where
    starts : (path : Text) → starts_with (codes "./www") (target_path path) ≡ true
    starts path = refl

    below :
        (path : Text)
        → contains (codes "..") path ≡ false
        → contains (codes "..") (target_path path) ≡ false
    below path inside = elim (Bool-cases (bytes_eq path (codes "/"))) [
      | inl root ↦ rw root refl
      | inr other ↦ rw other inside
    ]

module _ (lib : JsonLibrary) where
  open lib use {Double}

  post_comment-KeepsRules :
      (req : HttpRequest) (client_ip : Text) (ctx : RouteContext) (s : Server)
      → KeepsRules s.blacklist (handle_post_comment lib req client_ip ctx s)
  unfolding handle_post_comment post
  post_comment-KeepsRules req client_ip ctx s =
      if_holds (KeepsRules s.blacklist) (not (is_form req.headers)) _ _ (unchanged s refl _ _) (
        if_holds (KeepsRules s.blacklist) s.cooldown_mode _ _ (unchanged s refl _ _)
          (if_holds (KeepsRules s.blacklist) _ _ _ (unchanged s refl _ _) (unchanged _ refl _ _)))
    where
      unchanged :
          (s' : Server)
          → s'.blacklist ≡ s.blacklist
          → (g : Text → RouteContext) (o : Option Text)
          → KeepsRules s.blacklist (Option.map (λ b. (g b, s')) o)
      unchanged s' same g o r e = ap (λ (t : Server). t.blacklist) (answer-keeps g o s' r e) ∙ same

  reload_blacklist-KeepsRules :
      (req : HttpRequest) (ctx : RouteContext) (s : Server)
      → is_admin req.headers ≡ false
      → KeepsRules s.blacklist (handle_admin_reload_blacklist lib req ctx s)
  unfolding handle_admin_reload_blacklist
  reload_blacklist-KeepsRules req ctx s guest r e =
      ap (λ (t : Server). t.blacklist)
        (answer-keeps _ _ s r (rw (guest, handle_admin_reload_blacklist) at e))

  module _ (files : Files) (metrics : Metrics Double) where
    handle-KeepsRules :
        (route : Route) (req : HttpRequest) (client_ip : Text) (ctx : RouteContext) (s : Server)
        → req.path ≢ codes "/api/agent/control"
        → is_admin req.headers ≡ false
        → AtControl req.path route
        → KeepsRules s.blacklist (handle lib files metrics route req client_ip ctx s)
    unfolding handle
    handle-KeepsRules post_comment req client_ip ctx s other guest at r e =
        post_comment-KeepsRules req client_ip ctx s r e
    handle-KeepsRules control req client_ip ctx s other guest at r e = absurd (other at)
    handle-KeepsRules reload_blacklist req client_ip ctx s other guest at r e =
        reload_blacklist-KeepsRules req ctx s guest r e
    handle-KeepsRules monitor req client_ip ctx s other guest at r e =
        ap (λ (t : Server). t.blacklist)
          (handle-keeps lib files metrics monitor req client_ip ctx s r refl e)
    handle-KeepsRules get_comments req client_ip ctx s other guest at r e =
        ap (λ (t : Server). t.blacklist)
          (handle-keeps lib files metrics get_comments req client_ip ctx s r refl e)
    handle-KeepsRules stress req client_ip ctx s other guest at r e =
        ap (λ (t : Server). t.blacklist)
          (handle-keeps lib files metrics stress req client_ip ctx s r refl e)
    handle-KeepsRules telemetry req client_ip ctx s other guest at r e =
        ap (λ (t : Server). t.blacklist)
          (handle-keeps lib files metrics telemetry req client_ip ctx s r refl e)

    -- A request that is answered leaves the blacklist as it is, but for requests to the path of the
    -- agent's commands and requests with the administrator's token.
    pub dispatch-guards :
        (req : HttpRequest) (client_ip : Text) (s s' : Server) (bytes : Text)
        → req.path ≢ codes "/api/agent/control"
        → is_admin req.headers ≡ false
        → dispatch lib files metrics req client_ip s ≡ some (bytes, s')
        → s'.blacklist ≡ s.blacklist
    dispatch-guards req client_ip s s' bytes other guest e =
        let (ctx, found, _) = dispatch-inv lib files metrics req client_ip s s' bytes e in
        elim (Option-cases (route_of req.method req.path)) [
          | inl missing ↦
              ap (λ (p : RouteContext × Server). p.1.blacklist)
                (sym (some_inj (rw missing at found)))
          | inr (route, is_route) ↦
              handle-KeepsRules route req client_ip default_context (counted s) other guest
                (route_of-AtControl req.method req.path route is_route) (ctx, s')
                (rw is_route at found)
        ]

    handle-www :
        (files' : Files) (route : Route) (req : HttpRequest) (client_ip : Text) (ctx : RouteContext)
        (s : Server)
        → files.writable ≡ files'.writable
        → handle lib files metrics route req client_ip ctx s
          ≡ handle lib files' metrics route req client_ip ctx s
    unfolding handle
    handle-www files' control req client_ip ctx s same =
        ap (λ w. handle_agent_control lib w req ctx s) same
    handle-www files' monitor req client_ip ctx s same = refl
    handle-www files' _ req client_ip ctx s same = refl

    -- From one state, which includes the content of the blacklist's file: if two file systems agree
    -- on the files whose path starts with "./www" and has no "..", and on whether the blacklist's
    -- file can be written, every request is answered alike or fails alike, and leaves the same
    -- state.
    pub dispatch-www :
        (files' : Files) (req : HttpRequest) (client_ip : Text) (s : Server)
        → ((p : Text)
            → starts_with (codes "./www") p ≡ true
            → contains (codes "..") p ≡ false
            → files.read p ≡ files'.read p)
        → files.writable ≡ files'.writable
        → dispatch lib files metrics req client_ip s ≡ dispatch lib files' metrics req client_ip s
    unfolding dispatch
    dispatch-www files' req client_ip s agree same =
        ap (Option.map (λ (p : RouteContext × Server). (response p.0, p.1)))
          (routes (route_of req.method req.path))
      where
        routes :
            (route : Option Route)
            → handle_route lib files metrics route req client_ip default_context (counted s)
              ≡ handle_route lib files' metrics route req client_ip default_context (counted s)
        routes (some route) = handle-www files' route req client_ip default_context (counted s) same
        routes none =
            ap (λ (ctx : RouteContext). some (ctx, counted s))
              (handle_static_file-www files files' req default_context agree)
