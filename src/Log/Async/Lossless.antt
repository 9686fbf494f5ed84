-- ===== src/Log/Async/Lossless.antt =====
-- No line is lost, and the back end never meets a null pointer or an empty vector.
pub mod Rounds
use mini_reactor.Base.{
  ℕ, suc, ◌≤◌, ◌<◌, ◌≡◌, refl, sym, ap, ap₂, ◌∙◌, subst, ltb, Bool, true, false, ◌⊎◌, inl, inr,
  List, [], ◌∷◌, ◌++◌, Option, none, some, length, length-append, All, append-nil, append_assoc,
  Bool-cases, arith, lt→ltb,
}
use mini_reactor.Log.Async.{
  Bytes, k_large_buffer, avail, append_to, Logging, started, or_new, append, swap, pop_back, refill,
  concat, keep_two, write, next_part, Step, line, backend, step, run, sweep, sweep_after, finish,
  write_with,
}

-- The bytes of the file, and behind them those on their way to it.
abbrev pub total : Logging → Bytes
total s = s.file ++ (concat s.buffers_to_write ++ (concat s.buffers ++ s.current_buffer))

-- The back end's two pointers and its vector, between two rounds and after the swap.
abbrev pub Holds : Bool → Option Bytes → Option Bytes → List Bytes → Type 0
Holds false buffer1 buffer2 bs = (buffer1 ≡ some []) × (buffer2 ≡ some []) × (bs ≡ [])
Holds true buffer1 buffer2 bs =
    (buffer1 ≡ none)
    × (((buffer2 ≡ none) × (1 < length bs)) ⊎ ((buffer2 ≡ some []) × (0 < length bs)))

-- Where the empty buffers are: if the front end used its spare one, then a full one waits.
pub record IsSound (s : Logging) : Type 0 where
  pub spare : (s.next_buffer ≡ some []) ⊎ ((s.next_buffer ≡ none) × (0 < length s.buffers))
  pub phase : Holds s.writing s.buffer1 s.buffer2 s.buffers_to_write

abbrev pub Fits : Step → Type 0
Fits (line bytes) = length bytes < k_large_buffer
Fits backend = Unit

abbrev pub line_of : Step → Bytes
line_of (line bytes) = bytes
line_of backend = []

-- The lines of the steps, in order.
abbrev pub lines : List Step → Bytes
lines [] = []
lines (a ∷ rest) = line_of a ++ lines rest

concat-append : (bs cs : List Bytes) → concat (bs ++ cs) ≡ concat bs ++ concat cs
concat-append [] cs = refl
concat-append (b ∷ bs) cs =
    ap (λ l. b ++ l) (concat-append bs cs) ∙ sym (append_assoc b (concat bs) (concat cs))

pub concat-snoc : (bs : List Bytes) (b : Bytes) → concat (bs ++ (b ∷ [])) ≡ concat bs ++ b
concat-snoc bs b = concat-append bs (b ∷ []) ∙ ap (λ l. concat bs ++ l) (append-nil b)

-- What a step does: it succeeds, keeps the buffers in place, and adds its line at the end.
pub record Does (a : Step) (s : Logging) (r : Option Logging) : Type 0 where
  pub after : Logging
  pub result : r ≡ some after
  pub sound : IsSound after
  pub adds : total after ≡ total s ++ line_of a

append_end : (f w b c l : Bytes) → f ++ (w ++ (b ++ (c ++ l))) ≡ (f ++ (w ++ (b ++ c))) ++ l
append_end f w b c l =
    ap (λ r. f ++ r) (ap (λ r. w ++ r) (sym (append_assoc b c l)) ∙ sym (append_assoc w (b ++ c) l))
    ∙ sym (append_assoc f (w ++ (b ++ c)) l)

or_new_lem : (s : Logging) → IsSound s → or_new s.next_buffer ≡ []
or_new_lem s v = elim v.spare [ inl e ↦ ap or_new e | inr (e, h) ↦ ap or_new e ]

pub append-Does :
    (bytes : Bytes) (s : Logging)
    → length bytes < k_large_buffer
    → IsSound s
    → Does (line bytes) s (some (append bytes s))
unfolding append append_to
append-Does bytes s fits v = elim (Bool-cases (ltb (length bytes) (avail s.current_buffer))) [
  | inl room ↦ record {
    after = record s { current_buffer = s.current_buffer ++ bytes };
    result = rw room refl;
    sound = record { spare = v.spare; phase = v.phase };
    adds = append_end s.file (concat s.buffers_to_write) (concat s.buffers) s.current_buffer bytes;
  }
  | inr full ↦ record {
    after = record s {
      buffers = s.buffers ++ (s.current_buffer ∷ []);
      current_buffer = bytes;
      next_buffer = none;
    };
    result = rw (full, or_new_lem s v, lt→ltb (length bytes) k_large_buffer fits) refl;
    sound = record {
      spare = inr (refl, omega (arith, length-append s.buffers (s.current_buffer ∷ [])));
      phase = v.phase;
    };
    adds =
        ap (λ l. s.file ++ (concat s.buffers_to_write ++ l))
          (ap (λ l. l ++ bytes) (concat-snoc s.buffers s.current_buffer)
            ∙ append_assoc (concat s.buffers) s.current_buffer bytes)
        ∙ append_end s.file (concat s.buffers_to_write) (concat s.buffers) s.current_buffer bytes;
  }
]
