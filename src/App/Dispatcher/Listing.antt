-- ===== src/App/Dispatcher/Listing.antt =====
-- The list of comments over HTTP, and when it cannot be made.
use mathlib.Core.Option
use mini_reactor.Base.{
  ◌≡◌, ◌≢◌, ◌↔◌, ◌⊎◌, refl, ap, ◌∙◌, subst, inl, inr, Bool, true, false, List, [], ◌∷◌, ◌++◌, map,
  Option, none, some, All,
}
use mini_reactor.Base.Bytes.{codes, bytes_eq, lookup}
use mini_reactor.Http.Context.{HttpRequest}
use mini_reactor.App.Comments.{get_latest_comments}
use mini_reactor.App.Comments.History.{Comment, Holds}
use mini_reactor.App.Comments.Views.{newest, line, readers-newest}
use mini_reactor.App.Dispatcher.{Text, JsonLibrary, Server, Files, Metrics, json_type}
use mini_reactor.App.Dispatcher.Handlers.{handle_get_comments, comment_item, answer}
use mini_reactor.App.Dispatcher.Routing.{route_of, default_context, counted, handle, dispatch}
use mini_reactor.App.Dispatcher.Utf8.{is_utf8, IsStrict}
use mini_reactor.App.Dispatcher.Reading.{dispatch-route}

-- The two texts that the list shows are UTF-8.
abbrev pub IsReadable : Comment → Type 0
IsReadable c = (is_utf8 c.nickname ≡ true) × (is_utf8 c.content ≡ true)

true_or_false : (a b : Bool) → ((a ≡ true) × (b ≡ true)) ⊎ ((a ≡ false) ⊎ (b ≡ false))
true_or_false true true = inl (refl, refl)
true_or_false true false = inr (inr refl)
true_or_false false b = inr (inl refl)

module _ (lib : JsonLibrary) (strict : IsStrict lib) where
  open lib use {Json, Double, text, array, dump}

  abbrev item : Comment → Json
  item c = comment_item lib (line c)

  item-dumps : (c : Comment) → IsReadable c → dump (item c) ≢ none
  unfolding is_utf8
  item-dumps c (nick, content) =
      strict.pair_dumps (codes "nick") (codes "text") _ _ refl refl
        (strict.text_dumps c.nickname nick) (strict.text_dumps c.content content)

  item-throws :
      (c : Comment)
      → (is_utf8 c.nickname ≡ false) ⊎ (is_utf8 c.content ≡ false)
      → dump (item c) ≡ none
  unfolding bytes_eq
  item-throws c (inl bad) =
      strict.pair_throws (codes "nick") (codes "text") _ _ refl
        (inl (strict.text_throws c.nickname bad))
  item-throws c (inr bad) =
      strict.pair_throws (codes "nick") (codes "text") _ _ refl
        (inr (strict.text_throws c.content bad))

  items-dump : (cs : List Comment) → All IsReadable cs → All (λ j. dump j ≢ none) (map item cs)
  items-dump [] h = tt
  items-dump (c ∷ cs) h = (item-dumps c h.0, items-dump cs h.1)

  -- An item that throws makes the list throw, wherever it stands.
  array-IsReadable :
      (before : List Json) (cs : List Comment)
      → dump (array (before ++ map item cs)) ≢ none
      → All IsReadable cs
  array-IsReadable before [] dumps = tt
  array-IsReadable before (c ∷ cs) dumps =
      elim (true_or_false (is_utf8 c.nickname) (is_utf8 c.content)) [
        | inl good ↦ (
          good,
          array-IsReadable (before ++ (item c ∷ [])) cs
              (subst (λ js. dump (array js) ≢ none) (regroup before) dumps),
        )
        | inr bad ↦
            absurd (dumps (strict.array_throws before (map item cs) (item c) (item-throws c bad)))
      ]
    where
      regroup :
          (js : List Json) → js ++ (item c ∷ map item cs) ≡ (js ++ (item c ∷ [])) ++ map item cs
      regroup [] = refl
      regroup (j ∷ js) = ap (λ l. j ∷ l) (regroup js)

  map-item : (cs : List Comment) → map (comment_item lib) (map line cs) ≡ map item cs
  map-item [] = refl
  map-item (c ∷ cs) = ap (λ l. item c ∷ l) (map-item cs)

  map-some_iff {ℓ κ} :
      {A : Type ℓ} {B : Type κ} (f : A → B) (o : Option A) {r : Option B}
      → r ≡ Option.map f o
      → (r ≢ none) ↔ (o ≢ none)
  map-some_iff f none e = (λ h. absurd (h e), λ h. absurd (h refl))
  map-some_iff f (some a) e = (λ h e'. cc, λ h e'. cc)

  module _ (files : Files) (metrics : Metrics Double) where
    -- While the memory holds a history, the list of comments is answered exactly if the nicknames
    -- and texts of the newest 50 comments are all UTF-8; else the request ends in an exception.
    pub dispatch-get_comments :
        (req : HttpRequest) (client_ip : Text) (s : Server) (h : List Comment)
        → req.method ≡ codes "GET"
        → req.path ≡ codes "/api/comment"
        → Holds h s.comments
        → (dispatch lib files metrics req client_ip s ≢ none) ↔ All IsReadable (newest h)
    unfolding handle handle_get_comments route_of lookup bytes_eq
    dispatch-get_comments req client_ip s h m p holds = (
      λ answered. array-IsReadable [] (newest h) (listed.0 (sent.0 answered)),
      λ readable. sent.1 (listed.1 (strict.array_dumps _ (items-dump (newest h) readable))),
    )
      where
        items : map (comment_item lib) (get_latest_comments s.comments) ≡ map item (newest h)
        items =
            ap (map (comment_item lib)) (readers-newest h s.comments holds).0 ∙ map-item (newest h)

        sent :
            (dispatch lib files metrics req client_ip s ≢ none)
            ↔ (handle_get_comments lib default_context (counted s) ≢ none)
        sent = map-some_iff _ _ (
            dispatch-route lib files metrics (codes "GET") (codes "/api/comment") req client_ip s m
              p)

        listed :
            (handle_get_comments lib default_context (counted s) ≢ none)
            ↔ (dump (array (map item (newest h))) ≢ none)
        listed =
            map-some_iff _ _
              (ap (λ js. answer lib (json_type default_context) (array js) (counted s)) items)
