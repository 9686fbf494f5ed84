-- ===== src/App/Utils/Decoding.antt =====
-- `UrlDecode` against an encoder of the kind that browsers use.
use mini_reactor.Base.{
  ℕ, ◌+◌, ◌*◌, ◌/◌, ◌%◌, ◌<◌, ◌≡◌, refl, sym, ap, ap₂, ◌∙◌, ◌==◌, ltb, if◌then◌else◌, Bool, true,
  false, [], ◌∷◌, All, Bool-cases, inl, inr, arith,
}
use mini_reactor.App.Utils.{Text, hex_to_char, url_decode}

-- The hexadecimal digit, in upper case.
abbrev pub hex_digit : ℕ → ℕ
hex_digit d = if ltb d 10 then 48 + d else 55 + d

-- Bytes that `keeps` holds of stand for themselves; of the others, a blank is written as '+', and
-- each byte else as '%' and its two digits.
abbrev pub encoded : (ℕ → Bool) → ℕ → Text → Text
encoded keeps c rest =
    if keeps c
    then c ∷ rest
    else if c == 32
    then 43 ∷ rest
    else 37 ∷ hex_digit (c / 16) ∷ hex_digit (c % 16) ∷ rest

abbrev pub url_encode : (ℕ → Bool) → Text → Text
url_encode keeps [] = []
url_encode keeps (c ∷ s) = encoded keeps c (url_encode keeps s)

hex_lem : (d : ℕ) → d < 16 → hex_to_char (hex_digit d) ≡ d
unfolding hex_to_char
hex_lem d h = elim (Bool-cases (ltb d 10)) [ inl low ↦ ground arith | inr high ↦ ground arith ]

decode_plain :
    (c : ℕ) (s : Text)
    → (c == 43) ≡ false
    → (c == 37) ≡ false
    → url_decode (c ∷ s) ≡ c ∷ url_decode s
unfolding url_decode
decode_plain c [] a b = rw a refl
decode_plain c (d ∷ []) a b = rw a refl
decode_plain c (d ∷ e ∷ s) a b =
    ap₂
      (λ (p q : Bool). elim p as (λ x. Text) [
        | true ↦ 32 ∷ url_decode (d ∷ e ∷ s)
        | false ↦ elim q as (λ x. Text) [
          | true ↦ (hex_to_char d * 16 + hex_to_char e) ∷ url_decode s
          | false ↦ c ∷ url_decode (d ∷ e ∷ s)
        ]
      ])
      a b

decode_plus : (s : Text) → url_decode (43 ∷ s) ≡ 32 ∷ url_decode s
unfolding url_decode
decode_plus [] = refl
decode_plus (d ∷ []) = refl
decode_plus (d ∷ e ∷ s) = refl

decode_hex :
    (high low : ℕ) (s : Text)
    → url_decode (37 ∷ high ∷ low ∷ s) ≡ (hex_to_char high * 16 + hex_to_char low) ∷ url_decode s
unfolding url_decode
decode_hex high low s = refl

differs : (keeps : ℕ → Bool) (x c : ℕ) → keeps x ≡ false → keeps c ≡ true → (c == x) ≡ false
differs keeps x c drops keeps_c = elim (Bool-cases (c == x)) [
  | inr other ↦ other
  | inl same ↦
      let e : c ≡ x = ground arith in absurd (impossible (sym keeps_c ∙ ap keeps e ∙ drops))
]
  where
    impossible : true ≡ false → ⊥
    impossible e = cc

blank_lem : (c : ℕ) → (c == 32) ≡ true → 32 ≡ c
blank_lem c h = ground arith

halves : (c : ℕ) → c / 16 * 16 + c % 16 ≡ c
halves c = omega arith

-- Whatever bytes an encoder leaves as they are, if '+' and '%' are not among them, `UrlDecode`
-- gives back the text that was encoded.
pub url_decode-encode :
    (keeps : ℕ → Bool) (s : Text)
    → keeps 43 ≡ false
    → keeps 37 ≡ false
    → All (λ c. c < 256) s
    → url_decode (url_encode keeps s) ≡ s
unfolding url_decode
url_decode-encode keeps [] plus percent h = refl
url_decode-encode keeps (c ∷ s) plus percent h = elim (Bool-cases (keeps c)) [
  | inl kept ↦ rw kept (
      decode_plain c (url_encode keeps s) (differs keeps 43 c plus kept)
        (differs keeps 37 c percent kept)
      ∙ ap (λ l. c ∷ l) (url_decode-encode keeps s plus percent h.1))
  | inr changed ↦ elim (Bool-cases (c == 32)) [
    | inl blank ↦
        rw (changed, blank)
          (decode_plus (url_encode keeps s)
            ∙ ap₂ (λ x l. x ∷ l) (blank_lem c blank) (url_decode-encode keeps s plus percent h.1))
    | inr other ↦
        rw (changed, other)
          (decode_hex (hex_digit (c / 16)) (hex_digit (c % 16)) (url_encode keeps s)
            ∙ ap₂ (λ x l. x ∷ l)
                (ap₂ (λ x y. x * 16 + y) (hex_lem (c / 16) (omega (arith, h.0)))
                    (hex_lem (c % 16) (omega arith))
                  ∙ halves c)
                (url_decode-encode keeps s plus percent h.1))
  ]
]
