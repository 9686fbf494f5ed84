-- ===== src/Proxy/Flow/Links.antt =====
-- The flow control of one direction: a connection that is written, and the other one that is read.
use mini_reactor.Base.{
  ◌≤◌, ◌<◌, ◌≡◌, ◌⊎◌, refl, ◌∙◌, inl, inr, Bool, true, false, not, ◌&&◌, List, if_holds, if_cases,
  Bool-cases, arith, if◌then◌else◌,
}
use mini_reactor.Net.Channel.{set_events, enable_reading, disable_reading}
use mini_reactor.Net.Connection.{Connection, Effect}
use mini_reactor.Proxy.{Side, k_proxy_high_water_mark, pause, resume, crosses}
use mini_reactor.Proxy.Flow.{backlog, completes, IsWatched, Tells}

-- The source is read unless it is paused; it is paused once the mark is reached, and only while
-- bytes wait for the sink or a notice of the sink is queued.
pub record Link (sink source : Side) (noticed : Bool) : Type 0 where
  pub watched : IsWatched sink.conn
  pub held : source.held ≡ true
  pub paused : source.read_paused ≡ true → (0 < backlog sink.conn) ⊎ (noticed ≡ true)
  pub bounded : (backlog sink.conn < k_proxy_high_water_mark) ⊎ (source.read_paused ≡ true)
  pub gate : source.conn.channel.reading ≡ not source.read_paused

abbrev pub pausing : Bool → Side → Side
pausing b x = if b then pause x else x

abbrev pub with_conn : Connection → Side → Side
with_conn c x = record x { conn = c }

-- The sides that `pause` and `resume` give where they act.
abbrev stopped : Side → Side
stopped x = record x {
  conn = record (x.conn) { channel = set_events disable_reading x.conn.channel };
  read_paused = true;
}

abbrev going : Side → Side
going x = record x {
  conn = record (x.conn) { channel = set_events enable_reading x.conn.channel };
  read_paused = false;
}

pause-read_paused : (x : Side) → x.held ≡ true → (pause x).read_paused ≡ true
unfolding pause
pause-read_paused x h =
    if_cases (λ (y : Side). y.read_paused ≡ true) (x.held && not x.read_paused) (stopped x) x
      (λ k. refl) (λ k. ground arith)

pause-gate :
    (x : Side)
    → x.conn.channel.reading ≡ not x.read_paused
    → (pause x).conn.channel.reading ≡ not (pause x).read_paused
unfolding pause set_events
pause-gate x h =
    if_holds (λ (y : Side). y.conn.channel.reading ≡ not y.read_paused)
      (x.held && not x.read_paused) (stopped x) x refl h

pause-held : (x : Side) → x.held ≡ true → (pause x).held ≡ true
unfolding pause
pause-held x h =
    if_holds (λ (y : Side). y.held ≡ true) (x.held && not x.read_paused) (stopped x) x h h

pause_as_sink : (x y : Side) (n : Bool) → Link x y n → Link (pause x) y n
unfolding pause set_events
pause_as_sink x y n l =
    if_holds (λ (z : Side). Link z y n) (x.held && not x.read_paused) (stopped x) x
      (record {
        watched = record {
          valid = l.watched.valid;
          mark = l.watched.mark;
          on_high = l.watched.on_high;
          on_complete = l.watched.on_complete;
          waits = l.watched.waits;
        };
        held = l.held;
        paused = l.paused;
        bounded = l.bounded;
        gate = l.gate;
      })
      l

-- A call of the sink.
pub call_sink :
    (x y : Side) (n n' : Bool) (es : List Effect) (c : Connection)
    → Link x y n
    → Tells x.conn es c
    → (n ≡ true → n' ≡ true)
    → (completes es ≡ true → n' ≡ true)
    → Link (with_conn c x) (pausing (crosses es) y) n'
call_sink x y n n' es c l t more told = elim (Bool-cases (crosses es)) [
  | inl high ↦ rw high (record {
    watched = t.watched;
    held = pause-held y l.held;
    paused = λ k. inl (t.crossed high);
    bounded = inr (pause-read_paused y l.held);
    gate = pause-gate y l.gate;
  })
  | inr low ↦ rw low (record {
    watched = t.watched;
    held = l.held;
    paused = λ k. still (l.paused k);
    bounded = bound t.high l.bounded low;
    gate = l.gate;
  })
]
  where
    still : (0 < backlog x.conn) ⊎ (n ≡ true) → (0 < backlog c) ⊎ (n' ≡ true)
    still (inr k) = inr (more k)
    still (inl k) = elim t.emptied [
      | inl none ↦ absurd (omega (arith, none))
      | inr e ↦ elim e [ inl some ↦ inl some | inr e ↦ inr (told e) ]
    ]

    bound :
        (backlog c < k_proxy_high_water_mark)
          ⊎ ((k_proxy_high_water_mark ≤ backlog x.conn) ⊎ (crosses es ≡ true))
        → (backlog x.conn < k_proxy_high_water_mark) ⊎ (y.read_paused ≡ true)
        → crosses es ≡ false
        → (backlog c < k_proxy_high_water_mark) ⊎ (y.read_paused ≡ true)
    bound (inl k) b low = inl k
    bound (inr (inl k)) (inl b) low = absurd (omega arith)
    bound (inr (inl k)) (inr b) low = inr b
    bound (inr (inr k)) b low = absurd (ground arith)

-- A call of the source.
pub call_source :
    (x y : Side) (n n' : Bool) (es : List Effect) (c : Connection)
    → Link y x n
    → Tells x.conn es c
    → (n ≡ true → n' ≡ true)
    → Link (pausing (crosses es) y) (with_conn c x) n'
call_source x y n n' es c l t more =
    if_holds (λ (z : Side). Link z (with_conn c x) n') (crosses es) (pause y) y
      (pause_as_sink y (with_conn c x) n' same) same
  where
    same : Link y (with_conn c x) n'
    same = record {
      watched = l.watched;
      held = l.held;
      paused = λ k. elim (l.paused k) [ inl some ↦ inl some | inr e ↦ inr (more e) ];
      bounded = l.bounded;
      gate = t.reading ∙ l.gate;
    }

pub resume_as_sink : (x y : Side) (n : Bool) → Link x y n → Link (resume x) y n
unfolding resume set_events
resume_as_sink x y n l =
    if_holds (λ (z : Side). Link z y n) (x.held && x.read_paused) (going x) x
      (record {
        watched = record {
          valid = l.watched.valid;
          mark = l.watched.mark;
          on_high = l.watched.on_high;
          on_complete = l.watched.on_complete;
          waits = l.watched.waits;
        };
        held = l.held;
        paused = l.paused;
        bounded = l.bounded;
        gate = l.gate;
      })
      l

-- The notice, with nothing that waits.
pub resume_source :
    (x y : Side) (n n' : Bool) → Link x y n → backlog x.conn ≡ 0 → Link x (resume y) n'
unfolding resume set_events
resume_source x y n n' l none =
    if_cases (λ (z : Side). Link x z n') (y.held && y.read_paused) (going y) y
      (λ h. record {
        watched = l.watched;
        held = l.held;
        paused = λ k. absurd (ground arith);
        bounded = inl (omega (arith, none));
        gate = refl;
      })
      (λ h. record {
        watched = l.watched;
        held = l.held;
        paused = λ k. absurd (resumed l.held k h);
        bounded = l.bounded;
        gate = l.gate;
      })
  where
    resumed : y.held ≡ true → y.read_paused ≡ true → (y.held && y.read_paused) ≡ false → ⊥
    resumed h k e = ground arith
