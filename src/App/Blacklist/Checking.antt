-- ===== src/App/Blacklist/Checking.antt =====
-- Which comments are blocked, and what a batch of rules changes.
use mini_reactor.Base.{
  ◌==◌, ltb, if◌then◌else◌, ◌≡◌, ◌≢◌, ◌↔◌, ◌⊎◌, inl, inr, refl, sym, ap, ap₂, ◌∙◌, Bool, true,
  false, ◌&&◌, ◌||◌, List, [], ◌∷◌, ◌++◌, All, length, Bool-cases, lt→ltb, arith,
}
use mini_reactor.App.Blacklist.{
  Text, lower, BlockReason, no_reason, nickname, ip, keyword, BlackListData, member, starts_with,
  contains, first_hit, check_comment,
}

-- A keyword stands in a text.
abbrev pub Occurs : Text → Text → Type 0
Occurs kw s = (before : Text) × (behind : Text) × (s ≡ before ++ (kw ++ behind))

starts_with-lem : (p s : Text) → starts_with p s ≡ true → (behind : Text) × (s ≡ p ++ behind)
starts_with-lem [] s h = (s, refl)
starts_with-lem (c ∷ p) [] h = absurd (cc)
starts_with-lem (c ∷ p) (d ∷ s) h = elim (Bool-cases (c == d)) [
  | inl same ↦
      let (behind, e) = starts_with-lem p s (rw same at h) in
      let e' : c ≡ d = ground arith in (behind, ap₂ (λ x l. x ∷ l) (sym e') e)
  | inr other ↦ absurd (false_not_true (rw other at h))
]
  where
    false_not_true : false ≡ true → ⊥
    false_not_true e = cc

starts_with-append : (p behind : Text) → starts_with p (p ++ behind) ≡ true
starts_with-append [] behind = refl
starts_with-append (c ∷ p) behind =
    let same : (c == c) ≡ true = ground arith in rw (same, starts_with-append p behind) refl

or_true : (b c : Bool) → c ≡ true → (b || c) ≡ true
or_true true c h = refl
or_true false c h = h

contains-Occurs : (kw s : Text) → contains kw s ≡ true → Occurs kw s
unfolding contains
contains-Occurs kw [] h = let (behind, e) = starts_with-lem kw [] h in ([], behind, e)
contains-Occurs kw (c ∷ s) h = elim (Bool-cases (starts_with kw (c ∷ s))) [
  | inl here ↦ let (behind, e) = starts_with-lem kw (c ∷ s) here in ([], behind, e)
  | inr later ↦
      let (before, behind, e) = contains-Occurs kw s (rw later at h) in
      (c ∷ before, behind, ap (λ l. c ∷ l) e)
]

Occurs-contains : (kw before behind : Text) → contains kw (before ++ (kw ++ behind)) ≡ true
unfolding contains
Occurs-contains [] [] [] = refl
Occurs-contains [] [] (d ∷ behind) = refl
Occurs-contains (c ∷ kw) [] behind = rw (starts_with-append (c ∷ kw) behind) refl
Occurs-contains kw (c ∷ before) behind =
    or_true (starts_with kw (c ∷ (before ++ (kw ++ behind)))) _ (Occurs-contains kw before behind)

-- A keyword that blocks nothing.
abbrev pub Misses : Text → Text → Type 0
Misses s kw = (kw ≡ []) ⊎ (¬ Occurs kw s)

first_hit-Misses :
    (kws : List Text) (s : Text) → (first_hit kws s).0 ≡ no_reason → All (Misses s) kws
unfolding first_hit
first_hit-Misses [] s h = tt
first_hit-Misses ([] ∷ kws) s h = (inl refl, first_hit-Misses kws s h)
first_hit-Misses ((c ∷ kw) ∷ kws) s h = elim (Bool-cases (contains (c ∷ kw) s)) [
  | inl hit ↦ absurd (keyword_blocks (rw (lt→ltb 0 (length (c ∷ kw)) (omega arith), hit) at h))
  | inr miss ↦ (
    inr (λ o. absurd (
        true_not_false
          (sym (ap (contains (c ∷ kw)) o.2 ∙ Occurs-contains (c ∷ kw) o.0 o.1) ∙ miss))),
    first_hit-Misses kws s (rw (lt→ltb 0 (length (c ∷ kw)) (omega arith), miss) at h),
  )
]
  where
    keyword_blocks : keyword ≡ no_reason → ⊥
    keyword_blocks e = cc

    true_not_false : true ≡ false → ⊥
    true_not_false e = cc

Misses-first_hit :
    (kws : List Text) (s : Text) → All (Misses s) kws → (first_hit kws s).0 ≡ no_reason
unfolding first_hit
Misses-first_hit [] s h = refl
Misses-first_hit ([] ∷ kws) s h = Misses-first_hit kws s h.1
Misses-first_hit ((c ∷ kw) ∷ kws) s h = elim (Bool-cases (contains (c ∷ kw) s)) [
  | inr miss ↦ rw (lt→ltb 0 (length (c ∷ kw)) (omega arith), miss) (Misses-first_hit kws s h.1)
  | inl hit ↦ elim h.0 [
    | inl empty ↦ absurd (cons_not_nil empty)
    | inr absent ↦ absurd (absent (contains-Occurs (c ∷ kw) s hit))
  ]
]
  where
    cons_not_nil : c ∷ kw ≡ [] → ⊥
    cons_not_nil e = cc

passes_lem :
    (a b : Bool) (x y r : BlockReason × Text)
    → x.0 ≢ no_reason
    → y.0 ≢ no_reason
    → ((if a then x else if b then y else r).0 ≡ no_reason)
      ↔ ((a ≡ false) × (b ≡ false) × (r.0 ≡ no_reason))
passes_lem true b x y r nx ny = ((λ h. absurd (nx h)), (λ h. absurd (impossible h.0)))
  where
    impossible : true ≡ false → ⊥
    impossible e = cc
passes_lem false true x y r nx ny = ((λ h. absurd (ny h)), (λ h. absurd (impossible h.1)))
  where
    impossible : true ≡ false → ⊥
    impossible e = cc
passes_lem false false x y r nx ny = ((λ h. (refl, refl, h)), (λ h. h.2))

-- `CheckComment` lets a comment pass exactly if the nickname is not in its set, the address is
-- empty or not in its set, and no keyword but the empty one stands in the content in lower case.
pub check_comment-passes :
    (nick address content : Text) (rules : BlackListData)
    → ((check_comment nick address content rules).0 ≡ no_reason) ↔ (
        (member nick rules.nicks ≡ false)
        × ((ltb 0 (length address) && member address rules.ips) ≡ false)
        × All (Misses (lower content)) rules.keywords)
unfolding check_comment
check_comment-passes nick address content rules =
    let (to, from) =
      passes_lem (member nick rules.nicks) (ltb 0 (length address) && member address rules.ips)
        (nickname, nick) (ip, address) (first_hit rules.keywords (lower content)) (λ e. cc)
        (λ e. cc) in
    (
      λ h. let (a, b, c) = to h in (a, b, first_hit-Misses rules.keywords (lower content) c),
      λ h. from (h.0, h.1, Misses-first_hit rules.keywords (lower content) h.2),
    )
