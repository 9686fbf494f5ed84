-- ===== src/App/Dispatcher/Utf8.antt =====
-- UTF-8 as RFC 3629 has it, and what nlohmann::json promises of `dump`: it throws exactly if a
-- string in the value is no UTF-8.
use mini_reactor.Base.{
  ℕ, leb, ltb, if◌then◌else◌, ◌≡◌, ◌≢◌, ◌⊎◌, Bool, true, false, ◌&&◌, List, [], ◌∷◌, ◌++◌, Option,
  none, some, All, Option-cases, Bool-cases, inl, inr,
}
use mini_reactor.Base.Bytes.{bytes_eq}
use mini_reactor.App.Dispatcher.{Text, JsonLibrary}

-- The bounds of the bytes that follow a leading byte.
unfoldable pub followers : ℕ → Option (List (ℕ × ℕ))
followers c =
    if ltb c 0x80
    then some []
    else if ltb c 0xc2
    then none
    else if ltb c 0xe0
    then some ((0x80, 0xbf) ∷ [])
    else if leb c 0xe0
    then some ((0xa0, 0xbf) ∷ (0x80, 0xbf) ∷ [])
    else if ltb c 0xed
    then some ((0x80, 0xbf) ∷ (0x80, 0xbf) ∷ [])
    else if leb c 0xed
    then some ((0x80, 0x9f) ∷ (0x80, 0xbf) ∷ [])
    else if ltb c 0xf0
    then some ((0x80, 0xbf) ∷ (0x80, 0xbf) ∷ [])
    else if leb c 0xf0
    then some ((0x90, 0xbf) ∷ (0x80, 0xbf) ∷ (0x80, 0xbf) ∷ [])
    else if ltb c 0xf4
    then some ((0x80, 0xbf) ∷ (0x80, 0xbf) ∷ (0x80, 0xbf) ∷ [])
    else if leb c 0xf4
    then some ((0x80, 0x8f) ∷ (0x80, 0xbf) ∷ (0x80, 0xbf) ∷ [])
    else none

-- The text continues a character that wants bytes within these bounds.
unfoldable pub continues : List (ℕ × ℕ) → Text → Bool
unfolding followers
continues [] [] = true
continues ((lo, hi) ∷ rest) [] = false
continues ((lo, hi) ∷ rest) (c ∷ s) = leb lo c && leb c hi && continues rest s
continues [] (c ∷ s) = elim (followers c) [ none ↦ false | some bounds ↦ continues bounds s ]

unfoldable pub is_utf8 : Text → Bool
unfolding continues
is_utf8 s = continues [] s

continues-append :
    (bounds : List (ℕ × ℕ)) (s t : Text)
    → continues bounds s ≡ true
    → continues [] t ≡ true
    → continues bounds (s ++ t) ≡ true
unfolding continues
continues-append [] [] t h k = k
continues-append ((lo, hi) ∷ rest) [] t h k = absurd (cc)
continues-append ((lo, hi) ∷ rest) (c ∷ s) t h k = elim (Bool-cases (leb lo c && leb c hi)) [
  | inl inside ↦ rw inside (continues-append rest s t (rw inside at h) k)
  | inr outside ↦ absurd (cc (rw outside at h))
]
continues-append [] (c ∷ s) t h k = elim (Option-cases (followers c)) [
  | inl bad ↦ absurd (cc (rw (bad, continues) at h))
  | inr (bounds, good) ↦
      rw (good, continues) (continues-append bounds s t (rw (good, continues) at h) k)
]

pub is_utf8-append : (s t : Text) → is_utf8 s ≡ true → is_utf8 t ≡ true → is_utf8 (s ++ t) ≡ true
unfolding is_utf8
is_utf8-append s t = continues-append [] s t

-- What the documentation says of `dump`, for the values that the handlers build.
pub record IsStrict (lib : JsonLibrary) : Type 0 where
  pub text_dumps : (t : Text) → is_utf8 t ≡ true → lib.dump (lib.text t) ≢ none
  pub text_throws : (t : Text) → is_utf8 t ≡ false → lib.dump (lib.text t) ≡ none
  pub array_dumps :
      (js : List (lib.Json)) → All (λ j. lib.dump j ≢ none) js → lib.dump (lib.array js) ≢ none
  pub array_throws :
      (js ks : List (lib.Json)) (j : lib.Json)
      → lib.dump j ≡ none
      → lib.dump (lib.array (js ++ (j ∷ ks))) ≡ none
  pub pair_dumps :
      (k k' : Text) (a b : lib.Json)
      → is_utf8 k ≡ true
      → is_utf8 k' ≡ true
      → lib.dump a ≢ none
      → lib.dump b ≢ none
      → lib.dump (lib.object ((k, a) ∷ (k', b) ∷ [])) ≢ none
  pub pair_throws :
      (k k' : Text) (a b : lib.Json)
      → bytes_eq k k' ≡ false
      → (lib.dump a ≡ none) ⊎ (lib.dump b ≡ none)
      → lib.dump (lib.object ((k, a) ∷ (k', b) ∷ [])) ≡ none
