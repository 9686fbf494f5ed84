-- ===== src/Http/Context/Scan/Feed.antt =====
-- Runs over bytes that arrive in pieces.
use mini_reactor.Base.{
  ℕ, ◌≡◌, refl, ap, ◌∙◌, sym, subst, ◌≢◌, Bool, true, false, ◌&&◌, List, ◌++◌, Option, none, some,
  some-injective, drop, drop-append_of_le,
}
use mini_reactor.Http.Context.{HttpContext, got_all}
use mini_reactor.Http.Context.Scan.{
  Move, scan, IsRunning, Outcome, waiting, complete, illegal, outcome_of, Scans, waits, stops, goes,
}
use mini_reactor.Http.Context.Scan.Advance.{scan-append, scan-Advances}

outcome_of-ne-waiting : (ok : Bool) → outcome_of ok ≢ waiting
outcome_of-ne-waiting true e = cc
outcome_of-ne-waiting false e = cc

-- A run that waits goes on over the bytes that come next as if they had been there.
pub Scans-continue :
    {o : Outcome} {c mid : HttpContext} {r rest : List ℕ} (w : Outcome) (t : List ℕ)
    {ctx : HttpContext} {s : List ℕ}
    → Scans w mid rest ctx s
    → w ≡ waiting
    → Scans o c r mid (rest ++ t)
    → Scans o c r ctx (s ++ t)
Scans-continue {o} {c} {mid} {r} w t (waits {ctx} {s} h _ ec er) e next =
    subst (λ x. Scans o c r x (s ++ t)) ec (subst (λ x. Scans o c r mid (x ++ t)) er next)
Scans-continue w t (stops m h off ew ec er) e next =
    absurd (outcome_of-ne-waiting m.ok (sym ew ∙ e))
Scans-continue {o} {c} {r} w t (goes {ctx} {s} m h on run) e next =
    goes m (scan-append ctx s t m h) on (
      subst (λ x. Scans o c r m.ctx x)
        (sym (drop-append_of_le m.taken s t (scan-Advances ctx s m h).0))
        (Scans-continue w t run e next))

-- A run that ends leaves what comes behind.
pub Scans-append :
    {o : Outcome} {c : HttpContext} {r : List ℕ} (t : List ℕ) {ctx : HttpContext} {s : List ℕ}
    → o ≢ waiting
    → Scans o c r ctx s
    → Scans o c (r ++ t) ctx (s ++ t)
Scans-append t n (waits h e ec er) = absurd (n e)
Scans-append t n (stops {ctx} {s} m h off e ec er) =
    stops m (scan-append ctx s t m h) off e ec
      (ap (λ x. x ++ t) er ∙ sym (drop-append_of_le m.taken s t (scan-Advances ctx s m h).0))
Scans-append {o} {c} {r} t n (goes {ctx} {s} m h on run) = goes m (scan-append ctx s t m h) on (
    subst (λ x. Scans o c (r ++ t) m.ctx x)
      (sym (drop-append_of_le m.taken s t (scan-Advances ctx s m h).0)) (Scans-append t n run))

-- The run over given bytes is one.
pub record SameEnd (o o' : Outcome) (c c' : HttpContext) (r r' : List ℕ) : Type 0 where
  pub outcome : o ≡ o'
  pub context : c ≡ c'
  pub rest : r ≡ r'

some-ne-none {ℓ} : {A : Type ℓ} {o : Option A} {a : A} → o ≡ none → o ≡ some a → ⊥
some-ne-none e h = cc

same_move :
    (ctx : HttpContext) (s : List ℕ) {m m' : Move}
    → scan ctx s ≡ some m
    → scan ctx s ≡ some m'
    → m' ≡ m
same_move ctx s {m} {m'} e h = some-injective m' m (sym h ∙ e)

true_and_false : {a b : Bool} → b ≡ a → a ≡ true → b ≡ false → ⊥
true_and_false e h k = cc

pub Scans-SameEnd :
    {o o' : Outcome} {c c' : HttpContext} {r r' : List ℕ} {ctx : HttpContext} {s : List ℕ}
    → Scans o c r ctx s
    → Scans o' c' r' ctx s
    → SameEnd o o' c c' r r'
Scans-SameEnd (waits h e ec er) (waits h' e' ec' er') = record {
  outcome = e ∙ sym e';
  context = ec ∙ sym ec';
  rest = er ∙ sym er';
}
Scans-SameEnd (waits h e ec er) (stops m h' off e' ec' er') = absurd (some-ne-none h h')
Scans-SameEnd (waits h e ec er) (goes m h' on run) = absurd (some-ne-none h h')
Scans-SameEnd (stops m h off e ec er) (waits h' e' ec' er') = absurd (some-ne-none h' h)
Scans-SameEnd (goes m h on run) (waits h' e' ec' er') = absurd (some-ne-none h' h)
Scans-SameEnd (stops {s} m h off e ec er) (stops m' h' off' e' ec' er') =
    let same = same_move _ _ h h' in
    record {
      outcome = e ∙ sym (e' ∙ ap (λ x. outcome_of x.ok) same);
      context = ec ∙ sym (ec' ∙ ap (λ x. x.ctx) same);
      rest = er ∙ sym (er' ∙ ap (λ x. drop x.taken s) same);
    }
Scans-SameEnd (stops m h off e ec er) (goes m' h' on run) =
    absurd (true_and_false (ap (λ x. x.more && x.ok) (same_move _ _ h' h)) on off)
Scans-SameEnd (goes m h on run) (stops m' h' off e' ec' er') =
    absurd (true_and_false (ap (λ x. x.more && x.ok) (same_move _ _ h h')) on off)
Scans-SameEnd {o'} {c'} {r'} (goes {s} m h on run) (goes m' h' on' run') =
    Scans-SameEnd run (subst (λ x. Scans o' c' r' x.ctx (drop x.taken s)) (same_move _ _ h h') run')

-- What a run leaves: a context at its end, or one that is still running.
abbrev Left : Outcome → HttpContext → Type 0
Left waiting c = IsRunning c
Left complete c = c.state ≡ got_all
Left illegal c = Unit

pub Scans-Left :
    {c : HttpContext} {r : List ℕ} (o : Outcome) {ctx : HttpContext} {s : List ℕ}
    → IsRunning ctx
    → Scans o c r ctx s
    → Left o c
Scans-Left {c} o run (waits h e ec er) =
    subst (λ x. Left x c) (sym e) (subst IsRunning (sym ec) run)
Scans-Left {c} o run (stops {ctx} {s} m h off e ec er) =
    subst (λ x. Left x c) (sym e) (subst (λ x. Left (outcome_of m.ok) x) (sym ec) (ended m.ok refl))
  where
    ended : (ok : Bool) → m.ok ≡ ok → Left (outcome_of ok) m.ctx
    ended true k = (scan-Advances ctx s m h).2 off k
    ended false k = tt
Scans-Left o run (goes {ctx} {s} m h on rest) = Scans-Left o ((scan-Advances ctx s m h).1 on).1 rest
