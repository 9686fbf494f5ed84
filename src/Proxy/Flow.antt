-- ===== src/Proxy/Flow.antt =====
-- The flow control: what a call of a connection tells its owner.
pub mod Telling
pub mod Links
pub mod Calls
pub mod Steps
pub mod Before
pub mod Running
use mini_reactor.Base.{
  ℕ, zero, suc, ◌+◌, ◌≤◌, ◌<◌, ltb, leb, ◌==◌, ◌≡◌, ◌⊎◌, refl, sym, ap, ◌∙◌, inl, inr, Bool, true,
  false, not, ◌&&◌, List, [], ◌∷◌, ◌++◌, length, drop, length-drop, length-append, Bool-cases,
  if_holds, if_cases, arith, if◌then◌else◌,
}
use mini_reactor.Net.Buffer.{Buffer, readable_bytes, contents, append, retrieve}
use mini_reactor.Net.Buffer.Contents.{
  IsValid, contents-append, append-IsValid, retrieve-IsValid, contents-retrieve, length-contents,
}
use mini_reactor.Net.Channel.{Events, set_events, enable_writing, disable_writing}
use mini_reactor.Net.Connection.{
  StateE, Connection, Effect, requested, written, dropped, queue_write_complete, high_water,
  shutdown_write, WriteResult, accepted, would_block, write_error, effect_if, also, store,
  store_rest, direct, send_in_loop, wrote, wrote_result, handle_write, is_disconnected,
  is_disconnecting,
}
use mini_reactor.Proxy.{k_proxy_high_water_mark, crosses, is_high_water, is_complete}

abbrev pub backlog : Connection → ℕ
backlog c = readable_bytes c.output_buffer

-- Whether the call queues a notice that the buffer is empty.
abbrev pub completes : List Effect → Bool
completes [] = false
completes (e ∷ es) = if is_complete e then true else completes es

-- The flow control is installed, and the connection asks for EPOLLOUT while bytes wait.
pub record IsWatched (c : Connection) : Type 0 where
  pub valid : IsValid c.output_buffer
  pub mark : c.high_water_mark ≡ k_proxy_high_water_mark
  pub on_high : c.high_water_mark_callback ≡ true
  pub on_complete : c.write_complete_callback ≡ true
  pub waits : (backlog c ≡ 0) ⊎ (c.channel.writing ≡ true)

-- What a call of the connection keeps, and what it tells.
pub record Tells (c : Connection) (es : List Effect) (c' : Connection) : Type 0 where
  pub watched : IsWatched c'
  pub high :
      (backlog c' < k_proxy_high_water_mark)
      ⊎ ((k_proxy_high_water_mark ≤ backlog c) ⊎ (crosses es ≡ true))
  pub crossed : crosses es ≡ true → 0 < backlog c'
  pub emptied : (backlog c ≡ 0) ⊎ ((0 < backlog c') ⊎ (completes es ≡ true))
  pub reading : c'.channel.reading ≡ c.channel.reading
  pub state : c'.state ≡ c.state

abbrev pub TellsAll : Connection → List Effect × Connection → Type 0
TellsAll c (es, c') = Tells c es c'
