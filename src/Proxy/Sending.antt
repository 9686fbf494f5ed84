-- ===== src/Proxy/Sending.antt =====
-- What a call of a connection requests.
use mini_reactor.Base.{
  ℕ, zero, suc, ltb, ◌==◌, ◌≡◌, refl, ap, ◌∙◌, Bool, ◌&&◌, not, List, [], ◌++◌, length, drop,
  append-nil, if_holds,
}
use mini_reactor.Net.Buffer.{readable_bytes, retrieve}
use mini_reactor.Net.Connection.{
  StateE, connecting, connected, disconnecting, disconnected, Connection, Effect,
  queue_write_complete, high_water, shutdown_write, WriteResult, accepted, would_block, write_error,
  effect_if, store, store_rest, direct, send_in_loop, wrote, wrote_result, handle_write,
  is_disconnected, shutdown, shutdown_from, handle_close, close_from,
}
use mini_reactor.Net.Connection.Stream.{requests, requests-append, still_moves, effect_if-IsStill}

abbrev Asks : List ℕ → List Effect × Connection → Type 0
Asks asked r = requests r.0 ≡ asked

requests_if_complete : (b : Bool) → requests (effect_if b queue_write_complete) ≡ []
requests_if_complete b =
    (still_moves (effect_if b queue_write_complete) (effect_if-IsStill b _ (refl, refl))).0

requests_if_shutdown : (b : Bool) → requests (effect_if b shutdown_write) ≡ []
requests_if_shutdown b =
    (still_moves (effect_if b shutdown_write) (effect_if-IsStill b _ (refl, refl))).0

store_rest-Asks : (rest : List ℕ) (c : Connection) → Asks [] (store_rest rest c)
unfolding store
store_rest-Asks rest c =
    if_holds (Asks []) (ltb 0 (length rest)) (store rest c) ([], c)
      (still_moves (effect_if _ (high_water _)) (effect_if-IsStill _ _ (refl, refl))).0 refl

direct-Asks : (asked : List ℕ) (w : WriteResult) (c : Connection) → Asks [] (direct asked w c)
direct-Asks asked (accepted n) c =
    let done = length (drop n asked) == 0 && c.write_complete_callback in
    requests-append (effect_if done queue_write_complete) (store_rest (drop n asked) c).0
    ∙ rw (requests_if_complete done, store_rest-Asks (drop n asked) c) refl
direct-Asks asked would_block c = store_rest-Asks asked c
direct-Asks asked write_error c = refl

pub requests-send_in_loop :
    (asked : List ℕ) (w : WriteResult) (c : Connection)
    → requests (send_in_loop asked w c).0 ≡ asked
unfolding send_in_loop
requests-send_in_loop asked w c =
    ap (λ l. asked ++ l)
      (if_holds (Asks []) (is_disconnected c.state) _ _ refl (
        if_holds (Asks []) (readable_bytes c.output_buffer == 0) _ _ (direct-Asks asked w c)
          (store_rest-Asks asked c)))
    ∙ append-nil asked

wrote-Asks : (n : ℕ) (c : Connection) → Asks [] (wrote n c)
unfolding wrote
wrote-Asks n c =
    if_holds (Asks []) (readable_bytes (retrieve n c.output_buffer) == 0) _ _
      (requests-append (effect_if c.write_complete_callback queue_write_complete) _
        ∙ rw (requests_if_complete c.write_complete_callback) (requests_if_shutdown _))
      refl

pub requests-handle_write : (w : WriteResult) (c : Connection) → requests (handle_write w c).0 ≡ []
unfolding handle_write
requests-handle_write w c = if_holds (Asks []) c.channel.writing _ ([], c) (result w) refl
  where
    result : (w : WriteResult) → Asks [] (wrote_result w c)
    result (accepted zero) = refl
    result (accepted (suc n)) = wrote-Asks (suc n) c
    result would_block = refl
    result write_error = refl

pub requests-shutdown : (c : Connection) → requests (shutdown c).0 ≡ []
unfolding shutdown
requests-shutdown c = from c.state
  where
    from : (s : StateE) → Asks [] (shutdown_from s c)
    from connecting = refl
    from connected = requests_if_shutdown (not c.channel.writing)
    from disconnecting = refl
    from disconnected = refl

pub requests-handle_close : (c : Connection) → requests (handle_close c).0 ≡ []
unfolding handle_close
requests-handle_close c = from c.state
  where
    from : (s : StateE) → Asks [] (close_from s c)
    from connecting = refl
    from connected = refl
    from disconnecting = refl
    from disconnected = refl
