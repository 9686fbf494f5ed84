-- ===== src/Proxy/Flow/Telling.antt =====
-- What the calls of a connection tell its owner.
use mini_reactor.Base.{
  ℕ, zero, suc, ◌+◌, ◌≤◌, ◌<◌, ltb, leb, ◌==◌, ◌≡◌, ◌⊎◌, refl, sym, ap, ◌∙◌, inl, inr, Bool, true,
  false, ◌&&◌, List, [], ◌∷◌, ◌++◌, length, drop, length-drop, length-append, Bool-cases, if_holds,
  if_cases, arith, if◌then◌else◌,
}
use mini_reactor.Net.Buffer.{Buffer, readable_bytes, contents, append, retrieve}
use mini_reactor.Net.Buffer.Contents.{
  IsValid, contents-append, append-IsValid, retrieve-IsValid, contents-retrieve, length-contents,
}
use mini_reactor.Net.Channel.{Events, set_events}
use mini_reactor.Net.Connection.{
  Connection, Effect, requested, written, dropped, queue_write_complete, high_water, shutdown_write,
  WriteResult, accepted, would_block, write_error, effect_if, also, store, store_rest, direct,
  send_in_loop, wrote, wrote_result, handle_write, is_disconnected, is_disconnecting,
}
use mini_reactor.Proxy.{k_proxy_high_water_mark, crosses, is_high_water, is_complete}
use mini_reactor.Proxy.Flow.{backlog, completes, IsWatched, Tells, TellsAll}

readable_bytes-append :
    (rest : List ℕ) (b : Buffer)
    → IsValid b
    → readable_bytes (append rest b) ≡ readable_bytes b + length rest
readable_bytes-append rest b v = omega (
  arith,
  length-contents b v,
  length-contents (append rest b) (append-IsValid rest v),
  ap length (contents-append rest b v),
  length-append (contents b) rest,
)

crosses_if : (b : Bool) (n : ℕ) → crosses (effect_if b (high_water n)) ≡ b
crosses_if true n = refl
crosses_if false n = refl

-- Nothing happens to the buffer.
still-Tells : (c : Connection) (es : List Effect) → IsWatched c → crosses es ≡ false → Tells c es c
still-Tells c es w h = record {
  watched = w;
  high = ground arith;
  crossed = λ k. absurd (ground arith);
  emptied = ground arith;
  reading = refl;
  state = refl;
}

marks :
    (old len mark n : ℕ) (watched : Bool)
    → mark ≡ k_proxy_high_water_mark
    → watched ≡ true
    → (len < k_proxy_high_water_mark)
      ⊎ ((k_proxy_high_water_mark ≤ old)
          ⊎ (crosses (effect_if (ltb old mark && leb mark len && watched) (high_water n)) ≡ true))
marks old len mark n watched h k = elim (Bool-cases (ltb old mark && leb mark len && watched)) [
  | inl e ↦ inr (inr (crosses_if _ n ∙ e))
  | inr e ↦ ground arith
]

store-Tells :
    (rest : List ℕ) (c : Connection) → IsWatched c → 0 < length rest → TellsAll c (store rest c)
unfolding store set_events
store-Tells rest c w h =
    let len = readable_bytes-append rest c.output_buffer w.valid in
    record {
      watched = record {
        valid = append-IsValid rest w.valid;
        mark = w.mark;
        on_high = w.on_high;
        on_complete = w.on_complete;
        waits = inr (
            if_cases (λ (e : Events). e.writing ≡ true) c.channel.writing c.channel _ (λ h. h)
              (λ h. refl));
      };
      high =
          elim (marks (backlog c) (backlog c + length rest) c.high_water_mark
            (backlog c + length rest) c.high_water_mark_callback w.mark w.on_high) [
              | inl k ↦ inl (omega (arith, len))
              | inr k ↦ inr k
            ];
      crossed = λ k. omega (arith, len);
      emptied = inr (inl (omega (arith, len)));
      reading =
          if_holds (λ (e : Events). e.reading ≡ c.channel.reading) c.channel.writing c.channel _
            refl refl;
      state = refl;
    }

-- What is left of a `Send` after effects that are neither crossing nor a notice, or after a
-- notice where nothing is left.
store_rest-Tells : (rest : List ℕ) (c : Connection) → IsWatched c → TellsAll c (store_rest rest c)
store_rest-Tells rest c w =
    if_cases (TellsAll c) (ltb 0 (length rest)) (store rest c) ([], c)
      (λ some. store-Tells rest c w (ground arith)) (λ none. still-Tells c [] w refl)

-- An effect in front that is no crossing.
after-Tells :
    (c : Connection) (e : Effect) (r : List Effect × Connection)
    → is_high_water e ≡ false
    → TellsAll c r
    → TellsAll c (also (e ∷ []) r)
after-Tells c e (es, c') h t = record {
  watched = t.watched;
  high = elim t.high [
    | inl k ↦ inl k
    | inr k ↦ inr (elim k [ inl k ↦ inl k | inr k ↦ inr (same ∙ k) ])
  ];
  crossed = λ k. t.crossed (sym same ∙ k);
  emptied = elim t.emptied [
    | inl k ↦ inl k
    | inr k ↦ inr (elim k [
      | inl k ↦ inl k
      | inr k ↦
          inr (if_cases (λ b. b ≡ true) (is_complete e) true (completes es) (λ h. refl) (λ h. k))
    ])
  ];
  reading = t.reading;
  state = t.state;
}
  where
    same : crosses (e ∷ es) ≡ crosses es
    same = ap (λ b. if b then true else crosses es) h

after_if-Tells :
    (b : Bool) (c : Connection) (e : Effect) (r : List Effect × Connection)
    → is_high_water e ≡ false
    → TellsAll c r
    → TellsAll c (also (effect_if b e) r)
after_if-Tells true c e r h t = after-Tells c e r h t
after_if-Tells false c e r h t = t

direct-Tells :
    (data_ : List ℕ) (w : WriteResult) (c : Connection)
    → IsWatched c
    → TellsAll c (direct data_ w c)
direct-Tells data_ (accepted n) c w = after-Tells c (written _) _ refl (
    after_if-Tells (length (drop n data_) == 0 && c.write_complete_callback) c queue_write_complete
      _ refl (store_rest-Tells (drop n data_) c w))
direct-Tells data_ would_block c w = store_rest-Tells data_ c w
direct-Tells data_ write_error c w = still-Tells c (dropped data_ ∷ []) w refl

pub send_in_loop-Tells :
    (data_ : List ℕ) (r : WriteResult) (c : Connection)
    → IsWatched c
    → TellsAll c (send_in_loop data_ r c)
unfolding send_in_loop
send_in_loop-Tells data_ r c w = after-Tells c (requested data_) _ refl (
    if_holds (TellsAll c) (is_disconnected c.state) _ _ (still-Tells c (dropped data_ ∷ []) w refl)
      (if_holds (TellsAll c) (readable_bytes c.output_buffer == 0) _ _ (direct-Tells data_ r c w)
        (store_rest-Tells data_ c w)))

readable_bytes-retrieve :
    (n : ℕ) (b : Buffer) → IsValid b → readable_bytes (retrieve n b) ≤ readable_bytes b
readable_bytes-retrieve n b v = omega (
  arith,
  length-contents b v,
  length-contents (retrieve n b) (retrieve-IsValid n v),
  ap length (contents-retrieve b n v),
  length-drop n (contents b),
)

-- The effects of a buffer that has become empty.
crosses_done :
    (a b : Bool) → crosses (effect_if a queue_write_complete ++ effect_if b shutdown_write) ≡ false
crosses_done true true = refl
crosses_done true false = refl
crosses_done false true = refl
crosses_done false false = refl

completes_done :
    (a b : Bool)
    → a ≡ true
    → completes (effect_if a queue_write_complete ++ effect_if b shutdown_write) ≡ true
completes_done true b h = refl
completes_done false b h = absurd (ground arith)

wrote-Tells :
    (n : ℕ) (c : Connection) → IsWatched c → c.channel.writing ≡ true → TellsAll c (wrote n c)
unfolding wrote set_events
wrote-Tells n c w h =
    let fewer = readable_bytes-retrieve n c.output_buffer w.valid in
    if_cases (TellsAll c) (readable_bytes (retrieve n c.output_buffer) == 0) _ _
      (λ none. record {
        watched = record {
          valid = retrieve-IsValid n w.valid;
          mark = w.mark;
          on_high = w.on_high;
          on_complete = w.on_complete;
          waits = inl (ground arith);
        };
        high = inl (ground arith);
        crossed = λ k. absurd (
            true_false (sym k ∙ crosses_done c.write_complete_callback (is_disconnecting c.state)));
        emptied = inr (
            inr
              (completes_done c.write_complete_callback (is_disconnecting c.state) w.on_complete));
        reading = refl;
        state = refl;
      })
      (λ some. record {
        watched = record {
          valid = retrieve-IsValid n w.valid;
          mark = w.mark;
          on_high = w.on_high;
          on_complete = w.on_complete;
          waits = inr h;
        };
        high = ground (arith, fewer);
        crossed = λ k. absurd (true_false (sym k));
        emptied = inr (inl (ground arith));
        reading = refl;
        state = refl;
      })
  where
    true_false : true ≡ false → ⊥
    true_false e = ground arith

pub handle_write-Tells :
    (r : WriteResult) (c : Connection) → IsWatched c → TellsAll c (handle_write r c)
unfolding handle_write
handle_write-Tells r c w =
    if_cases (TellsAll c) c.channel.writing _ ([], c) (result r) (λ h. still-Tells c [] w refl)
  where
    result : (r : WriteResult) → c.channel.writing ≡ true → TellsAll c (wrote_result r c)
    result (accepted zero) h = still-Tells c [] w refl
    result (accepted (suc n)) h = wrote-Tells (suc n) c w h
    result would_block h = still-Tells c [] w refl
    result write_error h = still-Tells c [] w refl
