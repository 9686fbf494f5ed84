-- ===== src/Net/Connection/Stream/Sending.antt =====
-- Sending and writing, as steps of the byte stream.
use mini_reactor.Base.{
  ℕ, zero, suc, ◌==◌, ◌≡◌, refl, sym, ap, ◌∙◌, true, ◌&&◌, List, [], ◌∷◌, ◌++◌, length, take, drop,
  take-append-drop, All, append-nil, Bool-cases, inl, inr, arith, lt→ltb, if_holds,
}
use mini_reactor.Net.Buffer.{Buffer, readable_bytes, contents, retrieve}
use mini_reactor.Net.Buffer.Contents.{
  IsValid, contents-append, append-IsValid, retrieve-IsValid, contents-retrieve, length-contents,
}
use mini_reactor.Net.Connection.{
  Connection, Effect, requested, written, queue_write_complete, WriteResult, accepted, would_block,
  write_error, effect_if, also, store, store_rest, direct, send_in_loop, wrote, wrote_result,
  handle_write, is_disconnected,
}
use mini_reactor.Net.Connection.Stream.{
  Carries, CarriesTo, IsStill, still_moves, Carries-still, effect_if-IsStill,
}

append-IsStill : (es fs : List Effect) → All IsStill es → All IsStill fs → All IsStill (es ++ fs)
append-IsStill [] fs h k = k
append-IsStill (e ∷ es) fs h k = (h.0, append-IsStill es fs h.1 k)

record Stores (rest : List ℕ) (c : Connection) (result : List Effect × Connection) : Type 0 where
  still : All IsStill result.0
  valid : IsValid result.1.output_buffer
  grown : contents result.1.output_buffer ≡ contents c.output_buffer ++ rest

store_rest-Stores :
    (rest : List ℕ) (c : Connection) → IsValid c.output_buffer → Stores rest c (store_rest rest c)
unfolding store
store_rest-Stores [] c v = record {
  still = tt;
  valid = v;
  grown = sym (append-nil (contents c.output_buffer));
}
store_rest-Stores (x ∷ xs) c v = rw (lt→ltb 0 (length (x ∷ xs)) (omega arith)) (record {
  still = effect_if-IsStill _ _ (refl, refl);
  valid = append-IsValid (x ∷ xs) v;
  grown = contents-append (x ∷ xs) c.output_buffer v;
})

-- The effects of `Send` that kept all: the bytes taken, and then those that move nothing.
sends-Carries :
    (asked taken : List ℕ) (b b' : Buffer) (es : List Effect)
    → All IsStill es
    → IsValid b'
    → taken ++ contents b' ≡ contents b ++ asked
    → Carries b (requested asked ∷ written taken ∷ es) b'
sends-Carries asked taken b b' es still v h =
    let (r, w) = still_moves es still in
    record { valid = v; stream = λ k. rw (r, w, append-nil taken, append-nil asked) h }

queues-Carries :
    (asked : List ℕ) (b b' : Buffer) (es : List Effect)
    → All IsStill es
    → IsValid b'
    → contents b' ≡ contents b ++ asked
    → Carries b (requested asked ∷ es) b'
queues-Carries asked b b' es still v h =
    let (r, w) = still_moves es still in
    record { valid = v; stream = λ k. rw (r, w, append-nil asked) h }

contents_none : (b : Buffer) → IsValid b → (readable_bytes b == 0) ≡ true → contents b ≡ []
contents_none b v e = none (contents b) (length-contents b v ∙ ground arith)
  where
    none : (xs : List ℕ) → length xs ≡ 0 → xs ≡ []
    none [] h = refl
    none (x ∷ xs) h = absurd (omega arith)

direct-Carries :
    (asked : List ℕ) (w : WriteResult) (c : Connection)
    → IsValid c.output_buffer
    → contents c.output_buffer ≡ []
    → CarriesTo c.output_buffer (also (requested asked ∷ []) (direct asked w c))
direct-Carries asked (accepted n) c v e =
    let s = store_rest-Stores (drop n asked) c v in
    sends-Carries asked (take n asked) c.output_buffer (store_rest (drop n asked) c).1.output_buffer
      _
      (append-IsStill
        (effect_if (length (drop n asked) == 0 && c.write_complete_callback) queue_write_complete) _
        (effect_if-IsStill _ _ (refl, refl)) s.still)
      s.valid
      (ap (λ l. take n asked ++ l) (s.grown ∙ ap (λ l. l ++ drop n asked) e)
        ∙ take-append-drop n asked
        ∙ ap (λ l. l ++ asked) (sym e))
direct-Carries asked would_block c v e =
    let s = store_rest-Stores asked c v in
    queues-Carries asked c.output_buffer (store_rest asked c).1.output_buffer _ s.still s.valid
      s.grown
direct-Carries asked write_error c v e = record { valid = v; stream = λ k. absurd k.1.0 }

pub send_in_loop-Carries :
    (asked : List ℕ) (w : WriteResult) (c : Connection)
    → IsValid c.output_buffer
    → CarriesTo c.output_buffer (send_in_loop asked w c)
unfolding send_in_loop
send_in_loop-Carries asked w c v = elim (Bool-cases (is_disconnected c.state)) [
  | inl gone ↦ rw gone (record { valid = v; stream = λ k. absurd k.1.0 })
  | inr alive ↦ elim (Bool-cases (readable_bytes c.output_buffer == 0)) [
    | inl none ↦
        rw (alive, none) (direct-Carries asked w c v (contents_none c.output_buffer v none))
    | inr waits ↦
        let s = store_rest-Stores asked c v in
        rw (alive, waits)
          (queues-Carries asked c.output_buffer (store_rest asked c).1.output_buffer _ s.still
            s.valid s.grown)
  ]
]

writes-Carries :
    (taken : List ℕ) (b b' : Buffer) (es : List Effect)
    → All IsStill es
    → IsValid b'
    → taken ++ contents b' ≡ contents b
    → Carries b (written taken ∷ es) b'
writes-Carries taken b b' es still v h =
    let (r, w) = still_moves es still in
    record { valid = v; stream = λ k. rw (r, w, append-nil taken, append-nil (contents b)) h }

wrote-Carries :
    (n : ℕ) (c : Connection) → IsValid c.output_buffer → CarriesTo c.output_buffer (wrote n c)
unfolding wrote
wrote-Carries n c v =
    let out = retrieve n c.output_buffer in
    let taken = take n (contents c.output_buffer) in
    let moved : taken ++ contents out ≡ contents c.output_buffer =
      ap (λ l. taken ++ l) (contents-retrieve c.output_buffer n v)
      ∙ take-append-drop n (contents c.output_buffer) in
    elim (Bool-cases (readable_bytes out == 0)) [
      | inl none ↦ rw none (
          writes-Carries taken c.output_buffer out _
            (append-IsStill (effect_if c.write_complete_callback queue_write_complete) _
              (effect_if-IsStill _ _ (refl, refl)) (effect_if-IsStill _ _ (refl, refl)))
            (retrieve-IsValid n v) moved)
      | inr waits ↦
          rw waits (writes-Carries taken c.output_buffer out [] tt (retrieve-IsValid n v) moved)
    ]

pub handle_write-Carries :
    (w : WriteResult) (c : Connection)
    → IsValid c.output_buffer
    → CarriesTo c.output_buffer (handle_write w c)
unfolding handle_write
handle_write-Carries w c v =
    if_holds (CarriesTo c.output_buffer) c.channel.writing (wrote_result w c) ([], c) (result w)
      (Carries-still c.output_buffer [] v tt)
  where
    result : (w : WriteResult) → CarriesTo c.output_buffer (wrote_result w c)
    result (accepted zero) = Carries-still c.output_buffer [] v tt
    result (accepted (suc n)) = wrote-Carries (suc n) c v
    result would_block = Carries-still c.output_buffer [] v tt
    result write_error = Carries-still c.output_buffer [] v tt
