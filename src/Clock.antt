-- ===== src/Clock.antt =====
-- guest/compositor/presentation_clock.h: the estimate of the host's clock by the guest's. Instants are
-- uint64_t, so numbers below 2 ^ 64; the sums on `__int128` are integers.
pub mod Accuracy
mod Tests
use native_pipe.Base.{
  ℕ, ◌+◌, ◌-◌, ◌*◌, ◌/◌, ◌%◌, ◌^◌, Bool, true, false, not, ◌&&◌, ◌||◌, Option, none, some, ltb, leb,
  ◌==◌, if◌then◌else◌, arith,
}
use native_pipe.Base.Int.{ℤ, pos, sub_ℕ, pos_part, neg_part, ◌+ℤ◌, ◌-ℤ◌, ltb_ℤ, leb_ℤ}

abbrev pub vm_max_rtt : ℕ
vm_max_rtt = 50000000

-- `struct np_presentation_clock`
pub record PresentationClock : Type 0 where
  pub host : ℕ
  pub guest : ℕ
  pub rtt : ℕ
  pub sampled_at : ℕ
  pub epoch : ℕ
  pub epoch_host : ℕ
  pub maximum_rtt_ns : ℕ
  pub valid : Bool

-- np_presentation_clock_maximum_rtt
abbrev pub maximum_rtt : PresentationClock → ℕ
maximum_rtt c = if c.maximum_rtt_ns == 0 then vm_max_rtt else c.maximum_rtt_ns

-- `sent + rtt / 2` for `sent ≤ received`.
abbrev pub midpoint : ℕ → ℕ → ℕ
midpoint sent received = (sent + (received - sent) / 2) % 2 ^ 64

-- The size of an integer.
abbrev pub abs_ℤ : ℤ → ℕ
abs_ℤ a = pos_part a + neg_part a

-- np_presentation_clock_discontinuous
unfoldable pub discontinuous : PresentationClock → ℕ → ℕ → ℕ → Bool
discontinuous c sent received host =
    let rtt = received - sent in
    let offset = sub_ℕ (midpoint sent received) host in
    let previous = sub_ℕ c.guest c.host in
    let drift = if ltb c.sampled_at received then (received - c.sampled_at) / 2000 else 0 in
    if not c.valid || ((host == 0) || (ltb received sent || ltb (maximum_rtt c) rtt))
    then false
    else ltb ((c.rtt / 2 + rtt / 2 + 1000000) % 2 ^ 64 + drift) (abs_ℤ (offset -ℤ previous))

-- The clock of an accepted sample.
abbrev pub anchored : PresentationClock → ℕ → ℕ → ℕ → PresentationClock
anchored c sent received host = record c {
  host = host;
  guest = midpoint sent received;
  rtt = received - sent;
  sampled_at = received;
  valid = true;
}

-- np_presentation_clock_sample_at
unfoldable pub sample_at : PresentationClock → ℕ → ℕ → ℕ → PresentationClock × Bool
sample_at c sent received host =
    let rtt = received - sent in
    if (host == 0) || (ltb received sent || ltb (maximum_rtt c) rtt)
    then (c, false)
    else if c.valid
        && (ltb received c.sampled_at
            || (ltb host c.host || (ltb host c.epoch_host || discontinuous c sent received host)))
    then (c, false)
    else if c.valid
        && (ltb c.rtt rtt
            && (ltb vm_max_rtt (maximum_rtt c) || ltb (received - c.sampled_at) 2000000000))
    then (c, true)
    else (anchored c sent received host, true)

-- np_presentation_clock_convert; `none` is false.
unfoldable pub convert : PresentationClock → ℕ → ℕ → Option ℕ
convert c host now =
    let value = sub_ℕ (host + c.guest) c.host in
    if not c.valid || ((c.host == 0) || ((host == 0) || ltb host c.host))
    then none
    else if leb_ℤ value (pos 0)
        || (ltb_ℤ (pos (2 ^ 64 - 1)) value || ltb_ℤ (pos (now + c.rtt / 2)) value)
    then none
    else some (pos_part value)
