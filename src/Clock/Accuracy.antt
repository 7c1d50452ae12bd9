-- ===== src/Clock/Accuracy.antt =====
-- How far an accepted sample can be from the truth, and what a conversion gives.
use native_pipe.Base.{ℕ, ◌+◌, ◌-◌, ◌/◌, ◌≤◌, ◌<◌, ◌≡◌, true, false, some, arith, ◌⊎◌, ◌↔◌}
use native_pipe.Base.Bytes.{IsU64}
use native_pipe.Clock.{PresentationClock, maximum_rtt, midpoint, sample_at, convert}

-- A clock with an anchor is no older than its sample, and within its round trip.
pub record IsValid (c : PresentationClock) : Type 0 where
  pub host_known : c.valid ≡ true → 0 < c.host
  pub before_sample : c.valid ≡ true → c.guest ≤ c.sampled_at
  pub within_rtt : c.valid ≡ true → c.sampled_at ≤ c.guest + (c.rtt + 1) / 2
  pub rtt_short : c.valid ≡ true → c.rtt ≤ maximum_rtt c

-- A sample, accepted or refused, leaves the clock valid, with an anchor if it had one, and moves neither
-- its host instant nor the time of its sample back. A refused sample changes nothing; an accepted one has a
-- host instant, was received no earlier than sent, and took no longer than the longest round trip. The
-- clock is as it was or, if the host took its instant at the guest's time `truth` between sending and
-- receiving, its guest instant is at most half of the round trip, rounded up, from the truth.
pub sample_at-IsValid :
    (c : PresentationClock) (sent received host truth : ℕ)
    → IsU64 received
    → IsValid c
    → let (d, accepted) = sample_at c sent received host in
      IsValid d
      × (accepted ≡ false → d ≡ c)
      × (accepted ≡ true → (0 < host) × (sent ≤ received) × (received - sent ≤ maximum_rtt c))
      × (c.valid ≡ true → (d.valid ≡ true) × (c.host ≤ d.host) × (c.sampled_at ≤ d.sampled_at))
      × ((d ≡ c)
          ⊎ ((truth < sent)
              ⊎ (received < truth)
              ⊎ ((truth ≤ d.guest + (received - sent + 1) / 2)
                  × (d.guest ≤ truth + (received - sent + 1) / 2))))
unfolding sample_at
sample_at-IsValid c sent received host truth u v =
    let rtt = received - sent in
    let low : (received < sent) ⊎ (midpoint sent received ≤ received) = omega arith in
    let high : (received < sent) ⊎ (received ≤ midpoint sent received + (rtt + 1) / 2) =
      omega arith in
    let below : (truth < sent)
        ⊎ (received < truth)
        ⊎ (midpoint sent received ≤ truth + (rtt + 1) / 2) =
      omega arith in
    ground (arith, v, low, high, below)

-- A conversion gives an instant of the guest exactly if the clock has an anchor with a host instant, the
-- host's instant is not zero and no earlier than the anchor's, and there is a number that is as far from
-- the anchor's guest instant as the host's instant is from the anchor's, that is not zero, fits a uint64_t,
-- and is no later than now with the uncertainty of the anchor; and then it gives this number.
pub convert-exact :
    (c : PresentationClock) (host now g : ℕ)
    → (convert c host now ≡ some g) ↔ (
        (c.valid ≡ true)
        × (0 < c.host)
        × (0 < host)
        × (c.host ≤ host)
        × (g + c.host ≡ host + c.guest)
        × (0 < g)
        × IsU64 g
        × (g ≤ now + c.rtt / 2))
unfolding convert
convert-exact c host now g = ((λ e. ground (arith, e)), (λ h. ground (arith, h)))
