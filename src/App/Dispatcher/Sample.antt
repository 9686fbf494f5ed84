-- ===== src/App/Dispatcher/Sample.antt =====
-- A small JSON library that keeps the promises.
use mini_reactor.Base.{
  ℕ, ◌≡◌, ◌≢◌, ◌⊎◌, inl, inr, refl, if◌then◌else◌, List, [], ◌∷◌, ◌++◌, Option, none, some, All,
}
use mini_reactor.Base.Bytes.{codes, bytes_eq}
use mini_reactor.App.Dispatcher.{Text, JsonLibrary}
use mini_reactor.App.Dispatcher.Utf8.{is_utf8, IsStrict}

pub data Value : Type 0 where
  targets_of numbers : List ℕ → Value
  single : ℕ → Value
  printed : Option Text → Value

abbrev pub print : Value → Option Text
print (targets_of ns) = some []
print (numbers ns) = some []
print (single n) = some []
print (printed o) = o

abbrev pub join_texts : Option Text → Option Text → Option Text
join_texts none o = none
join_texts (some a) none = none
join_texts (some a) (some b) = some (a ++ b)

abbrev pub print_all : List Value → Option Text
print_all [] = some []
print_all (v ∷ vs) = join_texts (print v) (print_all vs)

abbrev pub print_fields : List (Text × Value) → Option Text
print_fields [] = some []
print_fields ((k, v) ∷ fs) = join_texts (print v) (print_fields fs)

-- A body of one byte names that comment.
abbrev pub parse_value : Text → Option Value
parse_value [] = none
parse_value (c ∷ []) = some (targets_of (c ∷ []))
parse_value (c ∷ d ∷ s) = none

abbrev pub field_of : Text → Value → Option Value
field_of k (targets_of ns) = if bytes_eq k (codes "block_seqs") then some (numbers ns) else none
field_of k _ = none

abbrev pub singles : List ℕ → List Value
singles [] = []
singles (n ∷ ns) = single n ∷ singles ns

abbrev pub items_of : Value → Option (List Value)
items_of (numbers ns) = some (singles ns)
items_of _ = none

abbrev pub number_of : Value → Option ℕ
number_of (single n) = some n
number_of _ = none

abbrev pub library : JsonLibrary
library = record {
  Json = Value;
  Double = ℕ;
  round_tenth = λ x. x;
  text = λ t. printed (if is_utf8 t then some t else none);
  number = single;
  real = single;
  boolean = λ b. printed (some []);
  array = λ vs. printed (print_all vs);
  object = λ fs. printed (print_fields fs);
  dump = print;
  parse = parse_value;
  member = field_of;
  as_boolean = λ v. none;
  as_array = items_of;
  as_unsigned = number_of;
  as_number = number_of;
}

join_texts-ne-none : (a b : Option Text) → a ≢ none → b ≢ none → join_texts a b ≢ none
join_texts-ne-none none b h k e = h refl
join_texts-ne-none (some a) none h k e = k refl
join_texts-ne-none (some a) (some b) h k e = cc

join_texts-none : (a b : Option Text) → (a ≡ none) ⊎ (b ≡ none) → join_texts a b ≡ none
join_texts-none none b h = refl
join_texts-none (some a) none h = refl
join_texts-none (some a) (some b) (inl h) = absurd (cc)
join_texts-none (some a) (some b) (inr h) = absurd (cc)

print_all-ne-none : (vs : List Value) → All (λ v. print v ≢ none) vs → print_all vs ≢ none
print_all-ne-none [] h = λ e. cc
print_all-ne-none (v ∷ vs) h =
    join_texts-ne-none (print v) (print_all vs) h.0 (print_all-ne-none vs h.1)

print_all-none :
    (vs ws : List Value) (v : Value) → print v ≡ none → print_all (vs ++ (v ∷ ws)) ≡ none
print_all-none [] ws v h = join_texts-none (print v) (print_all ws) (inl h)
print_all-none (w ∷ vs) ws v h =
    join_texts-none (print w) (print_all (vs ++ (v ∷ ws))) (inr (print_all-none vs ws v h))

pub library-IsStrict : IsStrict library
unfolding is_utf8
library-IsStrict = record {
  text_dumps = λ t h e. absurd (cc (rw h at e));
  text_throws = λ t h. rw h refl;
  array_dumps = print_all-ne-none;
  array_throws = λ vs ws v h. print_all-none vs ws v h;
  pair_dumps = λ k k' a b hk hk' ha hb.
      join_texts-ne-none (print a) (join_texts (print b) (some [])) ha
        (join_texts-ne-none (print b) (some []) hb (λ e. cc));
  pair_throws = λ k k' a b other bad.
      join_texts-none (print a) (join_texts (print b) (some []))
        (elim bad as (λ x. (print a ≡ none) ⊎ (join_texts (print b) (some []) ≡ none)) [
          | inl ha ↦ inl ha
          | inr hb ↦ inr (join_texts-none (print b) (some []) (inl hb))
        ]);
}
