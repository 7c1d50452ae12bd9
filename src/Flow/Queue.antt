-- ===== src/Flow/Queue.antt =====
-- The flow as a queue of chunks with a window.
use mathlib.Core.Path.{subst}
use native_pipe.Base.{
  ℕ, suc, ◌+◌, ◌-◌, ◌%◌, ◌≤◌, ◌<◌, ◌≡◌, refl, sym, ◌∙◌, ap, true, false, ◌||◌, [], ◌∷◌, ◌++◌, ltb,
  ◌==◌, arith, ◌⊎◌, inl, inr, Bool-cases, ==_refl, ◌≢◌,
}
use native_pipe.Base.Bytes.{inc32}
use native_pipe.Flow.{
  Times, Pending, RemoteFlow, put, slots, ack_loop, adjust, flow_allow, flow_sent, flow_ack,
}
use native_pipe.Flow.Ring.{total, total-append, view-suc, view-put}
use native_pipe.Flow.Acked.{IsRing, queue, take_front, total-take_front, ack_loop-Took}

-- A window is not set yet or within its limits.
abbrev pub IsWindow : ℕ → Type 0
IsWindow w = (w ≡ 0) ⊎ ((4096 ≤ w) × (w ≤ 1048576))

-- A window that is set, and within its limits.
abbrev pub IsInLimits : ℕ → Type 0
IsInLimits w = (4096 ≤ w) × (w ≤ 1048576)

module _ (t : Times) where
  open t use {Time}

  pub record IsValid (f : RemoteFlow t) : Type 0 where
    pub ring : IsRing t f
    pub summed : f.bytes ≡ total t (queue t f)
    pub window : IsWindow f.window

  adjust-keeps :
      (f : RemoteFlow t) (rtt now : Time)
      → ((adjust t f rtt now).pending ≡ f.pending)
        × ((adjust t f rtt now).head ≡ f.head)
        × ((adjust t f rtt now).count ≡ f.count)
        × ((adjust t f rtt now).bytes ≡ f.bytes)
  unfolding adjust
  adjust-keeps f rtt now = ground arith

  adjust-IsWindow :
      (f : RemoteFlow t) (rtt now : Time) → IsWindow f.window → IsWindow (adjust t f rtt now).window
  unfolding adjust
  adjust-IsWindow f rtt now w = ground arith

  adjust-IsInLimits :
      (f : RemoteFlow t) (rtt now : Time)
      → IsInLimits f.window
      → IsInLimits (adjust t f rtt now).window
  unfolding adjust
  adjust-IsInLimits f rtt now w = ground arith

  -- What np_flow_allow changes and what it allows.
  record Opened (f : RemoteFlow t) (remaining : ℕ) (o : RemoteFlow t × ℕ) : Type 0 where
    same_pending : o.0.pending ≡ f.pending
    same_head : o.0.head ≡ f.head
    same_count : o.0.count ≡ f.count
    same_bytes : o.0.bytes ≡ f.bytes
    window : IsWindow f.window → IsWindow o.0.window
    set : IsWindow f.window → IsInLimits o.0.window
    room : (o.1 ≡ 0) ⊎ ((o.0.count ≢ slots) × (o.1 ≤ remaining) × (o.0.bytes + o.1 ≤ o.0.window))

  flow_allow-Opened :
      (f : RemoteFlow t) (remaining : ℕ) → Opened f remaining (flow_allow t f remaining)
  unfolding flow_allow
  flow_allow-Opened f remaining = ground arith

  -- A flow with the same queue and a window of its own.
  same-IsValid :
      (f g : RemoteFlow t)
      → g.pending ≡ f.pending
      → g.head ≡ f.head
      → g.count ≡ f.count
      → g.bytes ≡ f.bytes
      → IsWindow g.window
      → IsValid f
      → IsValid g × (queue t g ≡ queue t f)
  same-IsValid f g ep eh ec eb w v =
      let same : queue t g ≡ queue t f = rw (ep, eh, ec) in
      (
        record {
          ring = record {
            head_lt = omega (arith, v.ring, eh);
            count_le = omega (arith, v.ring, ec);
          };
          summed = eb ∙ v.summed ∙ sym (ap (total t) same);
          window = w;
        },
        same,
      )

  queue-flow_sent :
      (f : RemoteFlow t) (size : ℕ) (now : Time)
      → f.count < slots
      → f.head < slots
      → queue t (flow_sent t f size now) ≡ queue t f ++ (record { bytes = size; sent = now } ∷ [])
  unfolding flow_sent
  queue-flow_sent f size now k h =
      let i = (f.head + f.count) % slots in
      let v : Pending t = record { bytes = size; sent = now } in
      let more : inc32 f.count ≡ suc f.count = omega arith in
      rw more (
        view-suc t (put t f.pending i v) f.head f.count h
        ∙ rw (view-put t f.pending i v f.head f.count h (omega arith) (omega arith), ==_refl i))

  flow_sent-fields :
      (f : RemoteFlow t) (size : ℕ) (now : Time)
      → f.count < slots
      → ((flow_sent t f size now).bytes ≡ f.bytes + size)
        × ((flow_sent t f size now).window ≡ f.window)
        × ((flow_sent t f size now).head ≡ f.head)
        × ((flow_sent t f size now).count ≡ suc f.count)
  unfolding flow_sent
  flow_sent-fields f size now k = (refl, refl, refl, omega arith)

  flow_sent-IsValid :
      (f : RemoteFlow t) (size : ℕ) (now : Time)
      → f.count < slots
      → IsValid f
      → IsValid (flow_sent t f size now)
  flow_sent-IsValid f size now k v =
      let grown = queue-flow_sent f size now k v.ring.head_lt in
      let sum =
        ap (total t) grown ∙ total-append t (queue t f) (record { bytes = size; sent = now }) in
      let (b, w, h, c) = flow_sent-fields f size now k in
      record {
        ring = record { head_lt = omega (arith, v.ring, h); count_le = omega (arith, c) };
        summed = b ∙ ap (λ n. n + size) v.summed ∙ sym sum;
        window = subst IsWindow (sym w) v.window;
      }

  -- What an accepted acknowledgement leaves.
  acked_lem :
      (f : RemoteFlow t) (size : ℕ) (now : Time)
      → size ≤ f.bytes
      → IsValid f
      → let looped =
          ack_loop t (suc slots) (record f { bytes = f.bytes - size }) size now t.nought in
        let g = adjust t looped.0 looped.1 now in
        IsValid g
        × (queue t g ≡ take_front t (queue t f) size)
        × (IsInLimits f.window → IsInLimits g.window)
  acked_lem f size now k v =
      let f' : RemoteFlow t = record f { bytes = f.bytes - size } in
      let looped = ack_loop t (suc slots) f' size now t.nought in
      let ring : IsRing t f' = record { head_lt = v.ring.head_lt; count_le = v.ring.count_le } in
      let took =
        ack_loop-Took t (suc slots) f' size now t.nought ring (omega (arith, v.ring))
          (omega (arith, v.summed)) in
      let sum = ap (total t) took.queued in
      let taken = total-take_front t (queue t f) size (omega (arith, v.summed)) in
      let valid : IsValid looped.0 = record {
        ring = took.ring;
        summed = took.same_bytes ∙ omega (arith, sum, taken, v.summed);
        window = subst IsWindow (sym took.same_window) v.window;
      } in
      let (ep, eh, ec, eb) = adjust-keeps looped.0 looped.1 now in
      let (good, same) =
        same-IsValid looped.0 (adjust t looped.0 looped.1 now) ep eh ec eb
          (adjust-IsWindow looped.0 looped.1 now valid.window) valid in
      (
        good,
        same ∙ took.queued,
        λ w. adjust-IsInLimits looped.0 looped.1 now (subst IsInLimits (sym took.same_window) w),
      )

  flow_ack_lem :
      (f : RemoteFlow t) (size : ℕ) (now : Time)
      → IsValid f
      → let acked = flow_ack t f size now in
        IsValid acked.0
        × (IsInLimits f.window → IsInLimits acked.0.window)
        × (((acked.1 ≡ true)
              × (0 < size)
              × (size ≤ f.bytes)
              × (queue t acked.0 ≡ take_front t (queue t f) size))
            ⊎ ((acked.1 ≡ false) × ((size ≡ 0) ⊎ (f.bytes < size)) × (acked.0 ≡ f)))
  unfolding flow_ack
  flow_ack_lem f size now v = elim (Bool-cases ((size == 0) || ltb f.bytes size)) [
    | inl bad ↦ rw bad (v, (λ w. w), inr (refl, ground (arith, bad), refl))
    | inr fine ↦
        let enough : size ≤ f.bytes = ground (arith, fine) in
        let (good, front, limits) = acked_lem f size now enough v in
        rw fine (good, limits, inl (refl, ground (arith, fine), enough, front))
  ]

  -- np_flow_allow, np_flow_sent and np_flow_ack implement a queue of chunks. A chunk that is allowed has
  -- room in the window and in the ring, and sending it adds it behind the others. An acknowledgement is
  -- accepted exactly if it is for at least one byte and no more than are in flight, and takes just its bytes
  -- from the front of the queue. np_flow_allow leaves a window between 4 KiB and 1 MiB, and an
  -- acknowledgement does if the window was between them. The byte count stays the sum of the queue.
  pub flow_refines :
      (f : RemoteFlow t) (remaining size : ℕ) (now : Time)
      → IsValid f
      → let opened = flow_allow t f remaining in
        let sent = flow_sent t opened.0 opened.1 now in
        let acked = flow_ack t f size now in
        IsValid opened.0
        × IsInLimits opened.0.window
        × (queue t opened.0 ≡ queue t f)
        × ((opened.1 ≡ 0)
            ⊎ (IsValid sent
                × (queue t sent ≡ queue t f ++ (record { bytes = opened.1; sent = now } ∷ []))
                × (opened.1 ≤ remaining)
                × (sent.bytes ≤ sent.window)))
        × IsValid acked.0
        × (IsInLimits f.window → IsInLimits acked.0.window)
        × (((acked.1 ≡ true)
              × (0 < size)
              × (size ≤ f.bytes)
              × (queue t acked.0 ≡ take_front t (queue t f) size))
            ⊎ ((acked.1 ≡ false) × ((size ≡ 0) ⊎ (f.bytes < size)) × (acked.0 ≡ f)))
  flow_refines f remaining size now v =
      let o = flow_allow-Opened f remaining in
      let (o0, chunk) = flow_allow t f remaining in
      let (good, same) =
        same-IsValid f o0 o.same_pending o.same_head o.same_count o.same_bytes (o.window v.window)
          v in
      let (accepted, limits, front) = flow_ack_lem f size now v in
      (
        good,
        o.set v.window,
        same,
        elim o.room [
          | inl none_allowed ↦ inl none_allowed
          | inr (free, within, fits) ↦
              let less : o0.count < slots = omega (arith, good.ring, free) in
              let (b, w, h, c) = flow_sent-fields o0 chunk now less in
              inr (
                flow_sent-IsValid o0 chunk now less good,
                queue-flow_sent o0 chunk now less good.ring.head_lt
                    ∙ ap (λ q. q ++ (record { bytes = chunk; sent = now } ∷ [])) same,
                within,
                omega (arith, b, w, fits),
              )
        ],
        accepted,
        limits,
        front,
      )
