-- ===== src/Http/Codec/Unique.antt =====
-- The events of given bytes, the context and the bytes left are determined by them.
use mini_reactor.Base.{
  ℕ, ◌<◌, ◌≡◌, refl, ap, ap₂, ◌∙◌, sym, subst, Bool, List, [], ◌++◌, length, arith,
}
use mini_reactor.Http.Context.{HttpContext, init}
use mini_reactor.Http.Context.Scan.{waiting, complete, illegal}
use mini_reactor.Http.Context.Scan.Feed.{Scans-SameEnd}
use mini_reactor.Http.Codec.{Event, call}
use mini_reactor.Http.Codec.Serve.{Ending, Serves, drained, pauses, refuses, dispatches}

complete-ne-waiting : complete ≡ waiting → ⊥
complete-ne-waiting e = cc

complete-ne-illegal : complete ≡ illegal → ⊥
complete-ne-illegal e = cc

illegal-ne-waiting : illegal ≡ waiting → ⊥
illegal-ne-waiting e = cc

module _ (cb : Bool) where
  -- The service of given bytes is one.
  pub record Same (es es' : List Event) (c c' : HttpContext) (r r' : List ℕ) : Type 0 where
    pub events : es ≡ es'
    pub context : c ≡ c'
    pub rest : r ≡ r'

  no_bytes : (s : List ℕ) → s ≡ [] → 0 < length s → ⊥
  no_bytes s e h = omega (arith, ap length e)

  pub Serves-Same :
      {end end' : Ending} {c c' : HttpContext} {r r' : List ℕ} {es es' : List Event}
      {ctx : HttpContext} {s : List ℕ}
      → Serves cb end c r es ctx s
      → Serves cb end' c' r' es' ctx s
      → Same es es' c c' r r'
  Serves-Same (drained e ee ec er) (drained e' ee' ec' er') = record {
    events = refl;
    context = ec ∙ sym ec';
    rest = er ∙ sym er';
  }
  Serves-Same (drained {s} e ee ec er) (pauses h ee' run) = absurd (no_bytes s e h)
  Serves-Same (drained {s} e ee ec er) (refuses h ee' run) = absurd (no_bytes s e h)
  Serves-Same (drained {s} e ee ec er) (dispatches mid rest h run more) = absurd (no_bytes s e h)
  Serves-Same (pauses h ee run) (drained {s} e ee' ec er) = absurd (no_bytes s e h)
  Serves-Same (refuses h ee run) (drained {s} e ee' ec er) = absurd (no_bytes s e h)
  Serves-Same (dispatches mid rest h run more) (drained {s} e ee ec er) = absurd (no_bytes s e h)
  Serves-Same (pauses h ee run) (pauses h' ee' run') =
      let q = Scans-SameEnd run run' in record { events = refl; context = q.context; rest = q.rest }
  Serves-Same (pauses h ee run) (refuses h' ee' run') = cc ((Scans-SameEnd run run').outcome)
  Serves-Same (pauses h ee run) (dispatches mid rest h' run' more) =
      absurd (complete-ne-waiting (sym (Scans-SameEnd run run').outcome))
  Serves-Same (refuses h ee run) (pauses h' ee' run') =
      absurd (illegal-ne-waiting (Scans-SameEnd run run').outcome)
  Serves-Same (refuses h ee run) (refuses h' ee' run') =
      let q = Scans-SameEnd run run' in record { events = refl; context = q.context; rest = q.rest }
  Serves-Same (refuses h ee run) (dispatches mid rest h' run' more) =
      absurd (complete-ne-illegal (sym (Scans-SameEnd run run').outcome))
  Serves-Same (dispatches mid rest h run more) (pauses h' ee' run') =
      absurd (complete-ne-waiting (Scans-SameEnd run run').outcome)
  Serves-Same (dispatches mid rest h run more) (refuses h' ee' run') =
      absurd (complete-ne-illegal (Scans-SameEnd run run').outcome)
  Serves-Same {end'} {c'} {r'} (dispatches mid rest h run more)
        (dispatches {es = es'} mid' rest' h' run' more') =
      let q = Scans-SameEnd run run' in
      let t = Serves-Same more (subst (λ x. Serves cb end' c' r' es' init x) (sym q.rest) more') in
      record {
        events = ap₂ (λ x es. call cb x.request ++ es) q.context t.events;
        context = t.context;
        rest = t.rest;
      }
