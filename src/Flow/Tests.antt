-- ===== src/Flow/Tests.antt =====
-- A flow with one chunk in flight, with numbers for the times.
use native_pipe.Base.{
  ℕ, ◌-◌, ◌≤◌, ◌<◌, ◌≡◌, ◌⊎◌, refl, true, false, [], ◌∷◌, ◌++◌, leb, ltb, ◌==◌, arith, inr,
}
use native_pipe.Flow.{Times, RemoteFlow, flow_allow, flow_sent, flow_ack, ack_loop, adjust}
use native_pipe.Flow.Acked.{queue, take_front}
use native_pipe.Flow.Queue.{IsValid, IsInLimits, flow_refines}

abbrev ticks : Times
ticks = record {
  Time = ℕ;
  nought = 0;
  minus = ◌-◌;
  le = leb;
  lt = ltb;
  is_nought = λ a. a == 0;
  tolerance = 30;
}

abbrev one_chunk : RemoteFlow ticks
one_chunk = record {
  pending = λ i. record { bytes = 500; sent = 1 };
  bytes = 500;
  window = 8192;
  head = 127;
  count = 1;
  minimum_rtt = 0;
  adjusted = 0;
  slow_at_floor = 0;
  waiting = false;
}

abbrev one_size : ℕ
one_size = 200

one_chunk-IsValid : IsValid ticks one_chunk
one_chunk-IsValid = record { ring = omega arith; summed = refl; window = inr (omega arith) }

takes : (flow_ack ticks one_chunk 200 9).0.bytes ≡ 300
unfolding flow_ack ack_loop adjust
takes = refl

flow_refines_example :
    let opened = flow_allow ticks one_chunk 4000 in
    let sent = flow_sent ticks opened.0 opened.1 7 in
    let acked = flow_ack ticks one_chunk 200 7 in
    IsValid ticks opened.0
    × IsInLimits opened.0.window
    × (queue ticks opened.0 ≡ queue ticks one_chunk)
    × ((opened.1 ≡ 0)
        ⊎ (IsValid ticks sent
            × (queue ticks sent
                ≡ queue ticks one_chunk ++ (record { bytes = opened.1; sent = 7 } ∷ []))
            × (opened.1 ≤ 4000)
            × (sent.bytes ≤ sent.window)))
    × IsValid ticks acked.0
    × (IsInLimits 8192 → IsInLimits acked.0.window)
    × (((acked.1 ≡ true)
          × (0 < 200)
          × (200 ≤ 500)
          × (queue ticks acked.0 ≡ take_front ticks (queue ticks one_chunk) 200))
        ⊎ ((acked.1 ≡ false) × ((one_size ≡ 0) ⊎ (500 < 200)) × (acked.0 ≡ one_chunk)))
flow_refines_example = flow_refines ticks one_chunk 4000 200 7 one_chunk-IsValid
