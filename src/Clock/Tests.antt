-- ===== src/Clock/Tests.antt =====
-- A clock with an anchor, a better sample and a conversion.
use native_pipe.Base.{
  ℕ, ◌+◌, ◌-◌, ◌/◌, ◌^◌, ◌≤◌, ◌<◌, ◌≡◌, refl, Bool, true, false, Option, none, some, arith, ◌⊎◌,
  ◌↔◌,
}
use native_pipe.Base.Bytes.{IsU64}
use native_pipe.Base.Int.{sub_ℕ}
use native_pipe.Clock.{PresentationClock, sample_at, convert, discontinuous, maximum_rtt}
use native_pipe.Clock.Accuracy.{IsValid, sample_at-IsValid, convert-exact}

abbrev clock : PresentationClock
clock = record {
  host = 1000;
  guest = 500;
  rtt = 40;
  sampled_at = 520;
  epoch = 1;
  epoch_host = 0;
  maximum_rtt_ns = 0;
  valid = true;
}

clock-IsValid : IsValid clock
clock-IsValid = omega arith

accepts : (sample_at clock 600 620 1110).0.guest ≡ 610
unfolding sample_at discontinuous native_pipe.Base.Int.◌-ℤ◌
accepts = refl

sample_at-IsValid_example :
    let (d, accepted) = sample_at clock 600 620 1110 in
    IsValid d
    × (accepted ≡ false → d ≡ clock)
    × (accepted ≡ true → (0 < 1110) × (600 ≤ 620) × (620 - 600 ≤ maximum_rtt clock))
    × (true ≡ true → (d.valid ≡ true) × (1000 ≤ d.host) × (520 ≤ d.sampled_at))
    × ((d ≡ clock)
        ⊎ ((611 < 600)
            ⊎ (620 < 611)
            ⊎ ((611 ≤ d.guest + (620 - 600 + 1) / 2) × (d.guest ≤ 611 + (620 - 600 + 1) / 2))))
sample_at-IsValid_example = sample_at-IsValid clock 600 620 1110 611 (omega arith) clock-IsValid

converts : convert clock 1100 700 ≡ some 600
unfolding convert
converts = refl

convert-exact_example : (convert clock 1100 700 ≡ some 600) ↔ (
    (true ≡ true)
    × (0 < 1000)
    × (0 < 1100)
    × (1000 ≤ 1100)
    × (600 + 1000 ≡ 1100 + 500)
    × (0 < 600)
    × IsU64 600
    × (600 ≤ 700 + 40 / 2))
convert-exact_example = convert-exact clock 1100 700 600
