-- ===== src/Flow.antt =====
-- guest/compositor/backends/remote/flow.h: the bytes in flight to the host and the window for more. The
-- array of pending chunks is a function on its 128 indices; times (`double`) are a parameter.
pub mod Ring
pub mod Acked
pub mod Queue
mod Tests
use native_pipe.Base.{
  ℕ, zero, suc, ◌+◌, ◌-◌, ◌*◌, ◌/◌, ◌%◌, Bool, true, false, not, ◌&&◌, ◌||◌, ltb, leb, ◌==◌,
  if◌then◌else◌,
}
use native_pipe.Base.Bytes.{inc32, dec32}

-- What the code uses of `double`. No law is needed: the bytes do not depend on the times.
pub record Times : Type 1 where
  pub Time : Type 0
  pub nought : Time
  pub minus : Time → Time → Time
  pub le : Time → Time → Bool
  pub lt : Time → Time → Bool
  pub is_nought : Time → Bool
  -- `tolerance + 0.000001`
  pub tolerance : Time

abbrev pub slots : ℕ
slots = 128

module _ (t : Times) where
  open t use {Time, nought, minus, le, lt, is_nought, tolerance}

  -- An element of `pending`.
  pub record Pending : Type 0 where
    pub bytes : ℕ
    pub sent : Time

  -- `struct np_remote_flow`
  pub record RemoteFlow : Type 0 where
    pub pending : ℕ → Pending
    pub bytes : ℕ
    pub window : ℕ
    pub head : ℕ
    pub count : ℕ
    pub minimum_rtt : Time
    pub adjusted : Time
    pub slow_at_floor : ℕ
    pub waiting : Bool

  -- `pending[i] = v`
  abbrev pub put : (ℕ → Pending) → ℕ → Pending → ℕ → Pending
  put p i v j = if j == i then v else p j

  -- The chunk for a window: a quarter of it, between 1 and 16 KiB, and no more than remains.
  abbrev pub chunk_for : ℕ → ℕ → ℕ
  chunk_for window remaining =
      let quarter = window / 4 in
      let low = if ltb quarter 1024 then 1024 else quarter in
      let high = if ltb 16384 low then 16384 else low in
      if ltb remaining high then remaining else high

  -- np_flow_allow
  unfoldable pub flow_allow : RemoteFlow → ℕ → RemoteFlow × ℕ
  flow_allow f remaining =
      let window = if f.window == 0 then 65536 else f.window in
      let chunk = chunk_for window remaining in
      let opened : RemoteFlow = record f { window = window } in
      if (f.count == slots) || ltb window (f.bytes + chunk)
      then (record opened { waiting = true }, 0)
      else (opened, chunk)

  -- np_flow_sent
  unfoldable pub flow_sent : RemoteFlow → ℕ → Time → RemoteFlow
  flow_sent f size now = record f {
    pending = put f.pending ((f.head + f.count) % slots) (record { bytes = size; sent = now });
    count = inc32 f.count;
    bytes = f.bytes + size;
  }

  -- `while (bytes)` of np_flow_ack. Each round empties the first chunk or ends the loop, so that one
  -- round more than there are chunks is enough.
  unfoldable pub ack_loop : ℕ → RemoteFlow → ℕ → Time → Time → RemoteFlow × Time
  ack_loop zero f left now rtt = (f, rtt)
  ack_loop (suc fuel) f left now rtt =
      let first = f.pending f.head in
      let taken = if ltb left first.bytes then left else first.bytes in
      let kept = first.bytes - taken in
      let cut : RemoteFlow = record f {
        pending = put f.pending f.head (record first { bytes = kept });
      } in
      let next : RemoteFlow =
        if kept == 0
        then record cut { head = (f.head + 1) % slots; count = dec32 f.count }
        else cut in
      let rest = ack_loop fuel next (left - taken) now (minus now first.sent) in
      if left == 0 then (f, rtt) else rest

  -- The window after an acknowledgement that took `rtt`.
  unfoldable pub adjust : RemoteFlow → Time → Time → RemoteFlow
  adjust f rtt now =
      let minimum =
        if is_nought f.minimum_rtt || lt rtt f.minimum_rtt then rtt else f.minimum_rtt in
      let reduced = f.window * 3 / 4 in
      let window = if ltb reduced 4096 then 4096 else reduced in
      let relearns = (window == 4096) && leb 8 (inc32 f.slow_at_floor) in
      let doubled = if ltb 1048576 (f.window * 2) then 1048576 else f.window * 2 in
      if le rtt nought
      then f
      else if not (le minimum (minus now f.adjusted))
      then record f { minimum_rtt = minimum }
      else if lt tolerance (minus rtt minimum)
      then record f {
        minimum_rtt = if relearns then rtt else minimum;
        window = window;
        slow_at_floor =
            if relearns
            then 0
            else if window == 4096
            then inc32 f.slow_at_floor
            else f.slow_at_floor;
        waiting = false;
        adjusted = now;
      }
      else record f {
        minimum_rtt = minimum;
        window = if f.waiting then doubled else f.window;
        slow_at_floor = 0;
        waiting = false;
        adjusted = now;
      }

  -- np_flow_ack
  unfoldable pub flow_ack : RemoteFlow → ℕ → Time → RemoteFlow × Bool
  flow_ack f size now =
      let looped = ack_loop (suc slots) (record f { bytes = f.bytes - size }) size now nought in
      if (size == 0) || ltb f.bytes size then (f, false) else (adjust looped.0 looped.1 now, true)
