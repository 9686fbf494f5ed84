-- ===== src/Log/Stream/Digits.antt =====
-- A formatted number is read back by `std::stoi`.
use mini_reactor.Base.{
  ℕ, zero, suc, ◌+◌, ◌-◌, ◌*◌, ◌/◌, ◌%◌, ◌^◌, ◌<◌, ◌≡◌, refl, ap, ◌∙◌, ◌==◌, true, false, List, [],
  ◌∷◌, ◌++◌, All, some, arith, Bool-cases, inl, inr, lt→ltb, leb, length, length-append,
}
use mini_reactor.Base.Bytes.{plus, minus, is_digit, is_space, read_digits, stoi}
use mini_reactor.Log.Stream.{digits, reverse, text_of}

abbrev AllDigits : List ℕ → Type 0
AllDigits ds = All (λ d. is_digit d ≡ true) ds

All-snoc : (ds : List ℕ) (d : ℕ) → AllDigits ds → is_digit d ≡ true → AllDigits (ds ++ (d ∷ []))
All-snoc [] d h k = (k, tt)
All-snoc (x ∷ ds) d h k = (h.0, All-snoc ds d h.1 k)

reverse-AllDigits : (ds : List ℕ) → AllDigits ds → AllDigits (reverse ds)
reverse-AllDigits [] h = tt
reverse-AllDigits (d ∷ ds) h = All-snoc (reverse ds) d (reverse-AllDigits ds h.1) h.0

digit-is_digit : (n : ℕ) → is_digit (48 + n % 10) ≡ true
unfolding is_digit
digit-is_digit n = ground arith

digits-AllDigits : (fuel n : ℕ) → AllDigits (digits fuel n)
unfolding digits
digits-AllDigits zero n = tt
digits-AllDigits (suc fuel) n = elim (Bool-cases (n / 10 == 0)) [
  | inl last ↦ rw last (digit-is_digit n, tt)
  | inr more ↦ rw more (digit-is_digit n, digits-AllDigits fuel (n / 10))
]

read_digits-snoc :
    (ds : List ℕ) (acc d : ℕ)
    → AllDigits ds
    → is_digit d ≡ true
    → read_digits acc (ds ++ (d ∷ [])) ≡ read_digits acc ds * 10 + (d - 48)
unfolding read_digits
read_digits-snoc [] acc d h k = rw k refl
read_digits-snoc (x ∷ ds) acc d h k = rw h.0 (read_digits-snoc ds (acc * 10 + (x - 48)) d h.1 k)

-- With fuel above the number, the digits read back as the number.
read_digits-digits : (fuel n : ℕ) → n < fuel → read_digits 0 (reverse (digits fuel n)) ≡ n
unfolding digits read_digits
read_digits-digits zero n h = absurd (omega arith)
read_digits-digits (suc fuel) n h = elim (Bool-cases (n / 10 == 0)) [
  | inl last ↦ rw (last, digit-is_digit n) (ground arith)
  | inr more ↦ rw more (
      read_digits-snoc (reverse (digits fuel (n / 10))) 0 (48 + n % 10)
        (reverse-AllDigits (digits fuel (n / 10)) (digits-AllDigits fuel (n / 10)))
        (digit-is_digit n)
      ∙ ap (λ r. r * 10 + (48 + n % 10 - 48)) (read_digits-digits fuel (n / 10) (ground arith))
      ∙ omega arith)
]

digit_lem :
    (c : ℕ) → is_digit c ≡ true → (is_space c ≡ false) × ((c == 45) ≡ false) × ((c == 43) ≡ false)
unfolding is_digit is_space
digit_lem c h = ground (arith, h)

stoi-digits :
    (c : ℕ) (ds : List ℕ)
    → AllDigits (c ∷ ds)
    → read_digits 0 (c ∷ ds) < 2 ^ 31
    → (stoi (c ∷ ds) ≡ some (plus (read_digits 0 (c ∷ ds))))
      × (stoi (b'-' ∷ c ∷ ds) ≡ some (minus (read_digits 0 (c ∷ ds))))
unfolding stoi read_digits
stoi-digits c ds h small =
    let (a, b, d) = digit_lem c h.0 in
    let value = rw h.0 at small in
    let below = lt→ltb (read_digits (0 + (c - 48)) ds) (2 ^ 31) value in
    let at_most : leb (read_digits (0 + (c - 48)) ds) (2 ^ 31) ≡ true = ground (arith, value) in
    (rw (a, b, d, h.0, below) refl, rw (h.0, at_most) refl)

-- A list of digits with at least one.
stoi_of :
    (ds : List ℕ) (n : ℕ)
    → AllDigits ds
    → 0 < length ds
    → read_digits 0 ds ≡ n
    → n < 2 ^ 31
    → (stoi ds ≡ some (plus n)) × (stoi (b'-' ∷ ds) ≡ some (minus n))
stoi_of [] n h l e small = absurd (omega arith)
stoi_of (c ∷ ds) n h l e small =
    let (p, m) = stoi-digits c ds h (omega (arith, e)) in
    (p ∙ ap (λ v. some (plus v)) e, m ∙ ap (λ v. some (minus v)) e)

length-snoc : (ds : List ℕ) (d : ℕ) → 0 < length (ds ++ (d ∷ []))
length-snoc ds d = omega (arith, length-append ds (d ∷ []))

length-digits : (fuel n : ℕ) → 0 < fuel → 0 < length (reverse (digits fuel n))
unfolding digits
length-digits zero n h = absurd (omega arith)
length-digits (suc fuel) n h = length-snoc _ (48 + n % 10)

reverse-snoc : (ds : List ℕ) (d : ℕ) → reverse (ds ++ (d ∷ [])) ≡ d ∷ reverse ds
reverse-snoc [] d = refl
reverse-snoc (x ∷ ds) d = ap (λ l. l ++ (x ∷ [])) (reverse-snoc ds d)

-- What `FormatInteger` writes for a number, and for one below zero, both at most 2^31 - 1 in
-- absolute value, `std::stoi` reads back as the number.
pub stoi-text_of :
    (n m : ℕ)
    → n < 2 ^ 31
    → suc m < 2 ^ 31
    → (stoi (text_of (plus n)) ≡ some (plus n))
      × (stoi (text_of (minus (suc m))) ≡ some (minus (suc m)))
unfolding text_of
stoi-text_of n m small small' = (
  (reads n small).0,
  ap stoi (reverse-snoc (digits (suc m + 1) (suc m)) b'-') ∙ (reads (suc m) small').1,
)
  where
    reads :
        (n : ℕ)
        → n < 2 ^ 31
        → (stoi (reverse (digits (n + 1) n)) ≡ some (plus n))
          × (stoi (b'-' ∷ reverse (digits (n + 1) n)) ≡ some (minus n))
    reads n small =
        stoi_of (reverse (digits (n + 1) n)) n
          (reverse-AllDigits (digits (n + 1) n) (digits-AllDigits (n + 1) n))
          (length-digits (n + 1) n (omega arith)) (read_digits-digits (n + 1) n (omega arith)) small
