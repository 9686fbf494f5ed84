-- ===== src/Log/Async/Lossless/Rounds.antt =====
-- The rounds of the back end, and whole runs of the log.
use mini_reactor.Base.{
  ℕ, suc, ◌≤◌, ◌<◌, ◌≡◌, refl, sym, ap, ap₂, ◌∙◌, subst, true, false, inl, inr, List, [], ◌∷◌, ◌++◌,
  none, some, length, length-append, All, append-nil, append_assoc, Bool-cases, arith, lt→ltb,
}
use mini_reactor.Log.Async.{
  Bytes, Logging, started, swap, pop_back, refill, concat, keep_two, write, next_part, Step, line,
  backend, step, run, Swept, sweep, sweep_after, finish, write_with,
}
use mini_reactor.Log.Async.Lossless.{
  total, Holds, Fits, line_of, lines, concat-snoc, append-Does, IsSound, Does,
}

swapped_total :
    (s : Logging)
    → s.buffers_to_write ≡ []
    → s.file ++ (concat (s.buffers ++ (s.current_buffer ∷ [])) ++ []) ≡ total s ++ []
swapped_total s e =
    ap (λ l. s.file ++ l) (append-nil _ ∙ concat-snoc s.buffers s.current_buffer)
    ∙ ap (λ w. s.file ++ (concat w ++ (concat s.buffers ++ s.current_buffer))) (sym e)
    ∙ sym (append-nil (total s))

swap-Does : (s : Logging) → s.writing ≡ false → IsSound s → Does backend s (swap s)
unfolding swap
swap-Does s idle v =
    let (b1, b2, none_left) =
      subst (λ w. Holds w s.buffer1 s.buffer2 s.buffers_to_write) idle v.phase in
    let waiting : 0 < length (s.buffers ++ (s.current_buffer ∷ [])) =
      omega (arith, length-append s.buffers (s.current_buffer ∷ [])) in
    elim v.spare [
      | inl e ↦ record {
        after = record s {
          current_buffer = [];
          buffers = [];
          buffer1 = none;
          buffers_to_write = s.buffers ++ (s.current_buffer ∷ []);
          writing = true;
        };
        result = rw (b1, e, none_left) refl;
        sound = record { spare = inl e; phase = (refl, inr (b2, waiting)) };
        adds = swapped_total s none_left;
      }
      | inr (e, h) ↦ record {
        after = record s {
          current_buffer = [];
          next_buffer = some [];
          buffers = [];
          buffer1 = none;
          buffer2 = none;
          buffers_to_write = s.buffers ++ (s.current_buffer ∷ []);
          writing = true;
        };
        result = rw (b1, e, b2, none_left) refl;
        sound = record {
          spare = inl refl;
          phase =
              (refl, inl (refl, omega (arith, h, length-append s.buffers (s.current_buffer ∷ []))));
        };
        adds = swapped_total s none_left;
      }
    ]

pop_back-some :
    (bs : List Bytes)
    → 0 < length bs
    → (last : Bytes) × (rest : List Bytes) × (pop_back bs ≡ some (last, rest))
      × (length bs ≡ suc (length rest))
pop_back-some [] h = absurd (omega arith)
pop_back-some (b ∷ []) h = (b, [], refl, refl)
pop_back-some (b ∷ c ∷ bs) h =
    let (last, rest, e, n) = pop_back-some (c ∷ bs) (omega arith) in
    (last, b ∷ rest, rw e refl, omega (arith, n))

keep_two-length : (bs : List Bytes) (n : ℕ) → n < 3 → n ≤ length bs → n ≤ length (keep_two bs)
keep_two-length [] n few h = h
keep_two-length (b ∷ []) n few h = h
keep_two-length (b ∷ c ∷ []) n few h = h
keep_two-length (b ∷ c ∷ d ∷ bs) n few h =
    rw (lt→ltb 2 (length (b ∷ c ∷ d ∷ bs)) (omega arith)) (omega arith)

abbrev written : Logging → Logging
written s = record s {
  buffer1 = some [];
  buffer2 = some [];
  buffers_to_write = [];
  file = s.file ++ concat s.buffers_to_write;
  writing = false;
}

refills : (s : Logging) → s.writing ≡ true → IsSound s → write s ≡ some (written s)
unfolding write
refills s busy v =
    let (b1, rest) = subst (λ w. Holds w s.buffer1 s.buffer2 s.buffers_to_write) busy v.phase in
    elim rest [
      | inl (b2, two) ↦
          let kept = keep_two-length s.buffers_to_write 2 (omega arith) two in
          let (last, left, e, n) =
            pop_back-some (keep_two s.buffers_to_write) (omega (arith, kept)) in
          let (last', left', e', n') = pop_back-some left (omega (arith, n, kept)) in
          ap₂ (λ x y. write_with x y s) b1 b2 ∙ rw (write_with, refill, e, e') refl
      | inr (b2, one) ↦
          let kept = keep_two-length s.buffers_to_write 1 (omega arith) one in
          let (last, left, e, n) = pop_back-some (keep_two s.buffers_to_write) kept in
          ap₂ (λ x y. write_with x y s) b1 b2 ∙ rw (write_with, refill, e) refl
    ]

write-Does : (s : Logging) → s.writing ≡ true → IsSound s → Does backend s (write s)
write-Does s busy v = record {
  after = written s;
  result = refills s busy v;
  sound = record { spare = v.spare; phase = (refl, refl, refl) };
  adds =
      append_assoc s.file (concat s.buffers_to_write) (concat s.buffers ++ s.current_buffer)
      ∙ sym (append-nil (total s));
}

step-Does : (a : Step) (s : Logging) → Fits a → IsSound s → Does a s (step a s)
unfolding step
step-Does (line bytes) s fits v = append-Does bytes s fits v
step-Does backend s fits v = elim (Bool-cases s.writing) [
  | inl busy ↦ subst (λ w. Does backend s (next_part w s)) (sym busy) (write-Does s busy v)
  | inr idle ↦ subst (λ w. Does backend s (next_part w s)) (sym idle) (swap-Does s idle v)
]

-- How a run and the sweep end: on no null pointer, and with every byte in the file.
pub record Keeps (steps : List Step) (s : Logging) : Type 0 where
  pub after : Logging
  pub result : run steps s ≡ some after
  pub sound : IsSound after
  pub keeps : total after ≡ total s ++ lines steps
  pub ended : Swept
  pub finished : finish after ≡ some ended
  pub complete : ended.file ≡ total s ++ lines steps

swept : (s : Logging) → s.buffers_to_write ≡ [] → (sweep s).file ≡ total s
unfolding sweep
swept s e =
    ap (λ l. s.file ++ l) (concat-snoc s.buffers s.current_buffer)
    ∙ ap (λ w. s.file ++ (concat w ++ (concat s.buffers ++ s.current_buffer))) (sym e)

finish-total :
    (s : Logging) → IsSound s → (ended : Swept) × (finish s ≡ some ended) × (ended.file ≡ total s)
unfolding finish
finish-total s v = elim (Bool-cases s.writing) [
  | inr idle ↦
      let phase = subst (λ w. Holds w s.buffer1 s.buffer2 s.buffers_to_write) idle v.phase in
      (sweep s, ap (λ w. sweep_after w s) idle, swept s phase.2)
  | inl busy ↦ (
    sweep (written s),
    ap (λ w. sweep_after w s) busy ∙ rw (sweep_after, refills s busy v) refl,
    swept (written s) refl
        ∙ append_assoc s.file (concat s.buffers_to_write) (concat s.buffers ++ s.current_buffer),
  )
]

-- From buffers in place, whatever lines shorter than a buffer the threads append, and however the
-- back end's swaps and writes fall between them: no step meets a null pointer or an empty vector,
-- and after the final sweep the file holds what it had and was to have, and behind it every line,
-- in order, once.
pub run-Keeps : (steps : List Step) (s : Logging) → All Fits steps → IsSound s → Keeps steps s
unfolding run
run-Keeps [] s fits v =
    let (ended, finished, complete) = finish-total s v in
    record {
      after = s;
      result = refl;
      sound = v;
      keeps = sym (append-nil (total s));
      ended = ended;
      finished = finished;
      complete = complete ∙ sym (append-nil (total s));
    }
run-Keeps (a ∷ rest) s fits v =
    let first = step-Does a s fits.0 v in
    let next = run-Keeps rest first.after fits.1 first.sound in
    let more : total first.after ++ lines rest ≡ total s ++ (line_of a ++ lines rest) =
      ap (λ l. l ++ lines rest) first.adds ∙ append_assoc (total s) (line_of a) (lines rest) in
    record {
      after = next.after;
      result = rw (run, first.result) next.result;
      sound = next.sound;
      keeps = next.keeps ∙ more;
      ended = next.ended;
      finished = next.finished;
      complete = next.complete ∙ more;
    }

pub started-IsSound : IsSound started
started-IsSound = record { spare = inl refl; phase = (refl, refl, refl) }
