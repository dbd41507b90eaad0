-- ===== src/Cover/Tests.antt =====
-- Turns of the cover loop with the concrete primitives.
use sing_ewp.Cover.Delay.{next_delay_bounds}
use sing_ewp.Prelude.Int.{pos}
use sing_ewp.Cover.Silent.{idle_turns, IsSilent, cover_loop-IsSilent}
use sing_ewp.Crypto.Toy.{toy, toy-IsLawful}
use sing_ewp.SecureStream.Total.{Works}
use sing_ewp.Kdf.{SessionKeys}
use sing_ewp.SecureStream.{SendEnv, new_client_stream}
use sing_ewp.Crypto.Random.{zeros-NeverFails, zeros-FillsBuffer, zeros}
use sing_ewp.Cover.{next_delay, cover_loop, half_second, default_cover_config}
use sing_ewp.Prelude.{◌/◌, ◌+◌, arith, refl, ◌≡◌, true, ◌∷◌, ℕ, ◌*◌, ◌≤◌, length, []}

next_delay_bounds_example :
    (d : ℕ) × (next_delay zeros default_cover_config ≡ pos d)
    × (half_second ≤ d + half_second / 2)
    × (d ≤ half_second + half_second / 2)
next_delay_bounds_example =
    next_delay_bounds zeros default_cover_config half_second half_second refl refl (omega arith)
      (omega arith) (omega arith)

-- The turn at a time in seconds.
abbrev at : ℕ → SendEnv
at t = record {
  cut = zeros;
  pick = zeros;
  fill = zeros;
  now = t * 2 * half_second;
  delivers = λ _. true;
}

at-Works : (t : ℕ) → Works (at t)
at-Works t = record { fills = zeros-NeverFails; delivers = λ m. refl }

abbrev keys : SessionKeys
keys = record { c2s_key = 1 ∷ []; s2c_key = 2 ∷ []; c2s_nonce = 1 ∷ []; s2c_nonce = 2 ∷ [] }

cover_loop-IsSilent_example :
    let (s', msgs) =
      cover_loop toy (at 0 ∷ at 1 ∷ []) default_cover_config (new_client_stream keys) in
    IsSilent toy (new_client_stream keys) msgs s' × (length msgs ≡ 1)
unfolding idle_turns
cover_loop-IsSilent_example =
    cover_loop-IsSilent toy toy-IsLawful (at 0 ∷ at 1 ∷ []) default_cover_config
      (new_client_stream keys) (at-Works 0, (at-Works 1, tt))
      (zeros-FillsBuffer, (zeros-FillsBuffer, tt)) refl
