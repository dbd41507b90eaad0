-- ===== src/Cover/Delay.antt =====
-- The time between two turns of the cover loop.
use sing_ewp.PaddingPolicy.{secure_rand_intn}
use sing_ewp.PaddingPolicy.Bounds.{secure_rand_intn-lt}
use sing_ewp.Cover.{next_delay, CoverConfig, minus, wrap_int64, shift}
use sing_ewp.Prelude.Int.{pos}
use sing_ewp.Crypto.Random.{Reader}
use sing_ewp.Prelude.{◌≡◌, ℕ, ◌/◌, ◌*◌, inr, arith, inl, ◌<◌, Bool-cases, ◌≤◌, ◌+◌, ◌-◌, ◌^◌, ◌%◌}

-- No wrap-around.
fits_int64 : (d : ℕ) → d < 2 ^ 63 → wrap_int64 (pos d) ≡ pos d
fits_int64 d low = let kept : d % 2 ^ 64 ≡ d = omega arith in ground (arith, kept, low)

jittered :
    (i n r : ℕ)
    → 0 < n
    → n ≤ 2 * i
    → i + n / 2 < 2 ^ 63
    → r < n
    → shift (pos i) r (n / 2) ≡ pos (i + r - n / 2)
jittered i n r some_span small room lt =
    let d = i + r - n / 2 in
    let here : minus (i + r) (n / 2) ≡ pos d = ground arith in
    let low : d < 2 ^ 63 = omega arith in rw here (fits_int64 d low)

-- With a jitter of at most the whole interval, and an interval and half a span that int64 has room for
-- together, the time to the next turn is not negative, and at most
-- half the span below or above the interval.
pub next_delay_bounds :
    (draw : Reader) (cfg : CoverConfig) (i n : ℕ)
    → cfg.interval ≡ pos i
    → cfg.span ≡ pos n
    → 0 < n
    → n ≤ 2 * i
    → i + n / 2 < 2 ^ 63
    → (d : ℕ) × (next_delay draw cfg ≡ pos d) × (i ≤ d + n / 2) × (d ≤ i + n / 2)
unfolding next_delay
next_delay_bounds draw cfg i n hi hn some_span small room =
    let r = secure_rand_intn draw n in
    let lt = secure_rand_intn-lt draw n some_span in
    elim (Bool-cases cfg.jitter) [
      | inr e ↦ (i, ground (arith, e, hi), omega arith, omega arith)
      | inl e ↦ (
        i + r - n / 2,
        ground (arith, hi, hn, e, some_span, jittered i n r some_span small room lt),
        omega (arith, lt),
        omega (arith, lt),
      )
    ]
