-- ===== src/Cover.antt =====
-- The cover traffic of securestream.go: the goroutine that StartCoverTraffic starts. A duration is in
-- nanoseconds.
pub mod Delay
pub mod Silent
mod Tests
use sing_ewp.PaddingPolicy.{secure_rand_intn}
use sing_ewp.Crypto.Random.{Reader}
use sing_ewp.Prelude.Int.{ℤ, pos, negsuc, pos_part}
use sing_ewp.Crypto.{Primitives}
use sing_ewp.Prelude.{
  ℕ, ◌*◌, true, false, ◌∷◌, Bool, ◌||◌, ◌/◌, List, leb, ◌+◌, [], ◌++◌, if◌then◌else◌, none, ltb,
  not, ◌-◌, ◌^◌, ◌%◌,
}
use sing_ewp.SecureStream.{SecureStream, send_cover_pad, SendEnv}

-- CoverConfig. A float64 is not modelled: `jitter` is `JitterFrac > 0`, and `span` is
-- `int(float64(Interval) * JitterFrac * 2)`.
pub record CoverConfig : Type 0 where
  pub interval : ℤ
  pub idle_after : ℤ
  pub jitter : Bool
  pub span : ℤ

-- 500 * time.Millisecond
abbrev pub half_second : ℕ
half_second = 500 * 1000000

-- DefaultCoverConfig
abbrev pub default_cover_config : CoverConfig
default_cover_config = record {
  interval = pos half_second;
  idle_after = pos half_second;
  jitter = true;
  span = pos half_second;
}

abbrev pub is_positive : ℤ → Bool
is_positive (pos n) = ltb 0 n
is_positive (negsuc n) = false

-- StartCoverTraffic, with `coverStarted` before and after it, and whether it starts the goroutine.
unfoldable pub start_cover_traffic : CoverConfig → Bool → Bool × Bool
start_cover_traffic cfg started =
    if not (is_positive cfg.interval) || not (is_positive cfg.idle_after)
    then (started, false)
    else if started
    then (true, false)
    else (true, true)

abbrev pub minus : ℕ → ℕ → ℤ
minus a b = if leb b a then pos (a - b) else negsuc (b - a - 1)

-- The int64 of a time.Duration.
abbrev pub wrap_int64 : ℤ → ℤ
wrap_int64 (pos n) = let m = n % 2 ^ 64 in if ltb m (2 ^ 63) then pos m else negsuc (2 ^ 64 - 1 - m)
wrap_int64 (negsuc n) =
    let m = n % 2 ^ 64 in if ltb m (2 ^ 63) then negsuc m else pos (2 ^ 64 - 1 - m)

-- `i + (r - h)`, where `r` and `h` are durations
abbrev pub shift : ℤ → ℕ → ℕ → ℤ
shift (pos i) r h = wrap_int64 (minus (i + r) h)
shift (negsuc i) r h = wrap_int64 (minus r (i + 1 + h))

-- nextDelay
unfoldable pub next_delay : Reader → CoverConfig → ℤ
next_delay draw cfg =
    if not cfg.jitter || not (is_positive cfg.span)
    then cfg.interval
    else (let n = pos_part cfg.span in shift cfg.interval (secure_rand_intn draw n) (n / 2))

-- `time.Since(last) >= cfg.IdleAfter`
abbrev pub is_idle : SendEnv → CoverConfig → ℕ → Bool
is_idle env cfg last = leb (last + pos_part cfg.idle_after) env.now

module _ (p : Primitives) where
  -- One turn of coverLoop after its timer, and whether there is another.
  unfoldable pub cover_turn :
      SendEnv → CoverConfig → SecureStream → SecureStream × List (List ℕ) × Bool
  cover_turn env cfg s =
      if s.closed
      then (s, [], false)
      else (let (s', msgs, failure) =
            if is_idle env cfg s.last_send
            then send_cover_pad p env (negsuc 0) s
            else (s, [], none) in
          (s', msgs, true))

  -- coverLoop, for as many turns as there are environments, with no other call between them.
  unfoldable pub cover_loop :
      List SendEnv → CoverConfig → SecureStream → SecureStream × List (List ℕ)
  cover_loop [] cfg s = (s, [])
  cover_loop (env ∷ envs) cfg s =
      let (s', msgs, again) = cover_turn env cfg s in
      let (s'', more) = cover_loop envs cfg s' in if again then (s'', msgs ++ more) else (s', msgs)
