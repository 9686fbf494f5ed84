-- ===== src/Http/Codec/Delivery.antt =====
-- Half packets and sticky packets: how the bytes are cut into deliveries does not matter.
use mini_reactor.Base.{
  ℕ, ◌<◌, ◌≡◌, refl, ap, ap₂, ◌∙◌, sym, subst, Bool, true, false, List, [], ◌∷◌, ◌++◌, some, length,
  arith, length-append, append_assoc, append-nil,
}
use mini_reactor.Net.Buffer.{Buffer, contents, append}
use mini_reactor.Net.Buffer.Contents.{IsValid, append-IsValid, contents-append}
use mini_reactor.Http.Context.{HttpContext}
use mini_reactor.Http.Context.Scan.{waiting, complete, illegal, Scans, IsRunning}
use mini_reactor.Http.Context.Scan.Feed.{Scans-continue, Scans-append, Scans-Left}
use mini_reactor.Http.Codec.{Event, send_bad_request, Served, served, call, on_message}
use mini_reactor.Http.Codec.Serve.{
  Ending, kept, refused, Serves, drained, pauses, refuses, dispatches, on_message-Replies,
}
use mini_reactor.Http.Codec.Unique.{Serves-Same}

more_left : (s t : List ℕ) → 0 < length s → 0 < length (s ++ t)
more_left s t h = omega (arith, length-append s t)

empty_append : (s t : List ℕ) → s ++ t ≡ [] → (s ≡ []) × (t ≡ [])
empty_append [] t e = (refl, e)
empty_append (x ∷ s) t e = cc

kept-ne-refused : kept ≡ refused → ⊥
kept-ne-refused e = cc

complete-ne-waiting : complete ≡ waiting → ⊥
complete-ne-waiting e = cc

module _ (cb : Bool) where
  -- A paused run goes on with the next bytes.
  resume :
      {end : Ending} {c mid : HttpContext} {r rest : List ℕ} (t : List ℕ) (ctx : HttpContext)
      (s : List ℕ) {es : List Event} {p : List ℕ}
      → 0 < length s
      → Scans waiting mid rest ctx s
      → Serves cb end c r es mid p
      → p ≡ rest ++ t
      → Serves cb end c r es ctx (s ++ t)
  resume {end} {c} {mid} {r} {rest} t ctx s more w (drained e ee ec er) q =
      let (rest_empty, t_empty) = empty_append rest t (sym q ∙ e) in
      pauses (more_left s t more) ee (
        subst (λ x. Scans waiting c r ctx (s ++ x)) (sym t_empty)
          (rw (append-nil s) (
            subst (λ x. Scans waiting x r ctx s) (sym ec)
              (subst (λ x. Scans waiting mid x ctx s) (rest_empty ∙ sym er) w))))
  resume {c} {mid} {r} t ctx s more w (pauses h ee run) q =
      pauses (more_left s t more) ee
        (Scans-continue waiting t w refl (subst (λ x. Scans waiting c r mid x) q run))
  resume {c} {mid} {r} t ctx s more w (refuses h ee run) q =
      refuses (more_left s t more) ee
        (Scans-continue waiting t w refl (subst (λ x. Scans illegal c r mid x) q run))
  resume {mid} t ctx s more w (dispatches mid' rest' h run next) q =
      dispatches mid' rest' (more_left s t more)
        (Scans-continue waiting t w refl (subst (λ x. Scans complete mid' rest' mid x) q run)) next

  pub Serves-continue :
      {end : Ending} {c mid : HttpContext} {r rest : List ℕ} {es' : List Event} (w : Ending)
      (t : List ℕ) {es : List Event} {ctx : HttpContext} {s : List ℕ}
      → Serves cb w mid rest es ctx s
      → w ≡ kept
      → Serves cb end c r es' mid (rest ++ t)
      → Serves cb end c r (es ++ es') ctx (s ++ t)
  Serves-continue {end} {c} {mid} {r} {es'} w t (drained {ctx} {s} e ee ec er) k next =
      subst (λ x. Serves cb end c r es' x (s ++ t)) ec
        (subst (λ x. Serves cb end c r es' mid (x ++ t)) (er ∙ sym e) next)
  Serves-continue w t (pauses {ctx} {s} h ee run) k next = resume t ctx s h run next refl
  Serves-continue w t (refuses h ee run) k next = absurd (kept-ne-refused (sym k ∙ ee))
  Serves-continue {end} {c} {r} {es'} w t (dispatches {es} {ctx} {s} mid' rest' h run more) k next =
      subst (λ x. Serves cb end c r x ctx (s ++ t))
        (sym (append_assoc (call cb mid'.request) es es'))
        (dispatches mid' (rest' ++ t) (more_left s t h) (Scans-append t complete-ne-waiting run)
          (Serves-continue w t more k next))

-- No event refuses the connection.
abbrev pub Accepts : List Event → Type 0
Accepts [] = Unit
Accepts (send_bad_request ∷ es) = ⊥
Accepts (_ ∷ es) = Accepts es

Accepts-kept :
    {cb : Bool} (end : Ending) {c : HttpContext} {r : List ℕ} {es : List Event} {ctx : HttpContext}
    {s : List ℕ}
    → Serves cb end c r es ctx s
    → Accepts es
    → end ≡ kept
Accepts-kept end (drained e ee ec er) a = ee
Accepts-kept end (pauses h ee run) a = ee
Accepts-kept end (refuses h ee run) a = absurd a
Accepts-kept {cb = true} end (dispatches mid rest h run more) a = Accepts-kept end more a
Accepts-kept {cb = false} end (dispatches mid rest h run more) a = Accepts-kept end more a

Serves-IsRunning :
    {cb : Bool} (end : Ending) {c : HttpContext} {r : List ℕ} {es : List Event} {ctx : HttpContext}
    {s : List ℕ}
    → Serves cb end c r es ctx s
    → end ≡ kept
    → IsRunning ctx
    → IsRunning c
Serves-IsRunning end (drained e ee ec er) k run = subst IsRunning (sym ec) run
Serves-IsRunning end (pauses h ee scans) k run = Scans-Left waiting run scans
Serves-IsRunning end (refuses h ee scans) k run = absurd (kept-ne-refused (sym k ∙ ee))
Serves-IsRunning end (dispatches mid rest h scans more) k run = Serves-IsRunning end more k tt

-- `bytes` arrive at the context `ctx` and the unread buffer `b`.
abbrev pub deliver : Bool → List ℕ → HttpContext → Buffer → Served
deliver cb bytes ctx b = on_message cb (some ctx) (append bytes b)

-- What a second delivery does after a first, and what one delivery of both would have done.
pub record SameService (cb : Bool) (x y : List ℕ) (ctx : HttpContext) (b : Buffer) (es : List Event)
    (c : HttpContext) (b1 : Buffer) : Type 0 where
  pub events : List Event
  pub final : HttpContext
  pub rest : Buffer
  pub whole_rest : Buffer
  pub second : deliver cb y c b1 ≡ served events final rest
  pub whole : deliver cb (x ++ y) ctx b ≡ served (es ++ events) final whole_rest
  pub same_rest : contents whole_rest ≡ contents rest

served-injective :
    {es es' : List Event} {c c' : HttpContext} {b b' : Buffer}
    → served es c b ≡ served es' c' b'
    → (es ≡ es') × (c ≡ c') × (b ≡ b')
served-injective e = (cc, cc, cc)

-- From a context that is running, with the buffer's cursors in order: a delivery that returned and
-- was not refused, and then a second one, raise the events of the two in one, and leave the same
-- parser state and the same unread bytes; both always return.
pub deliver-SameService :
    (cb : Bool) (x y : List ℕ) (ctx : HttpContext) (b : Buffer) (es : List Event) (c : HttpContext)
    (b1 : Buffer)
    → IsValid b
    → IsRunning ctx
    → deliver cb x ctx b ≡ served es c b1
    → Accepts es
    → SameService cb x y ctx b es c b1
deliver-SameService cb x y ctx b es c b1 v run e a =
    let first = on_message-Replies cb ctx (append x b) (append-IsValid x v) run in
    let (same_es, same_c, same_b) = served-injective (sym first.result ∙ e) in
    let accepted = subst Accepts (sym same_es) a in
    let is_kept = Accepts-kept first.ending first.run accepted in
    let run1 = subst IsRunning same_c (Serves-IsRunning first.ending first.run is_kept run) in
    let v1 = subst IsValid same_b first.valid in
    let second = on_message-Replies cb c (append y b1) (append-IsValid y v1) run1 in
    let whole = on_message-Replies cb ctx (append (x ++ y) b) (append-IsValid (x ++ y) v) run in
    let joined =
      Serves-continue cb first.ending y
        (subst (λ s. Serves cb first.ending first.final (contents first.rest) first.events ctx s)
          (contents-append x b v) first.run)
        is_kept
        (subst
          (λ s.
            Serves cb second.ending second.final (contents second.rest) second.events first.final s)
          (contents-append y b1 v1 ∙ ap (λ z. contents z ++ y) (sym same_b))
          (subst
            (λ z.
              Serves cb second.ending second.final (contents second.rest) second.events z
                (contents (append y b1)))
            (sym same_c) second.run)) in
    let bytes = contents-append (x ++ y) b v ∙ sym (append_assoc (contents b) x y) in
    let q =
      Serves-Same cb
        (subst (λ s. Serves cb whole.ending whole.final (contents whole.rest) whole.events ctx s)
          bytes whole.run)
        joined in
    record {
      events = second.events;
      final = second.final;
      rest = second.rest;
      whole_rest = whole.rest;
      second = second.result;
      whole =
          whole.result
          ∙ ap₂ (λ es c. served es c whole.rest) (q.events ∙ ap (λ z. z ++ second.events) same_es)
              q.context;
      same_rest = q.rest;
    }
