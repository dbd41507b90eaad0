-- ===== src/Service/Toy.antt =====
-- A concrete service, its client, and a call that served it.
use sing_ewp.Bytes.{byte_at}
use sing_ewp.Crypto.Toy.{toy-IsLawful, block, toy, checksum}
use sing_ewp.Service.Session.{dial_conn_session}
use sing_ewp.SecureStream.{SendEnv}
use sing_ewp.Address.Wire.{on_wire}
use sing_ewp.Service.Users.{IsService}
use sing_ewp.Kdf.{handshake_timestamp_window}
use sing_ewp.Handshake.{abs_diff}
use sing_ewp.Client.{Client}
use sing_ewp.Errors.{err, ok, eof}
use sing_ewp.SecureStream.Total.{Works}
use sing_ewp.Hello.Toy.{place-IsAddress, msg_1, accept_all, place, user-IsArray, user}
use sing_ewp.Handshake.Toy.{
  toy-IsKeyExchange, times_1, draws, written_1, toy_exchange, state_1, not_seen,
}
use sing_ewp.Service.{
  new_connection, listed, new_service, handle_transport, Dispatch, Service, rebuild_lookup, Handled,
}
use sing_ewp.Prelude.{List, refl, ◌∷◌, ◌≤◌, some, ◌%◌, ℕ, [], replicate, ◌+◌, false, arith, ◌≡◌, ap}
use sing_ewp.Crypto.Random.{zeros-NeverFails, zeros-FillsBuffer, zeros}

-- A service with the user of the concrete handshakes.
abbrev pub toy_service : Service
toy_service = rebuild_lookup toy (record (new_service toy) { users = user ∷ [] })

pub toy_service-IsService : IsService toy toy_service
unfolding listed
toy_service-IsService = record { distinct = (refl, tt); current = refl }

abbrev pub toy_client : Client
toy_client = record { uuid = user }

abbrev pub secret : List ℕ
secret = replicate 32 ((checksum (3 ∷ []) + byte_at 0 (block 32 (1 ∷ []))) % 256)

pub near : (a b : ℕ) → a ≤ b → b ≤ a + 120 → abs_diff a b ≤ handshake_timestamp_window
near a b lo hi = unfold abs_diff in ground arith

abbrev pub env_1 : SendEnv
env_1 = record { cut = zeros; pick = zeros; fill = zeros; now = 5; delivers = accept_all }

pub env_1-Works : Works env_1
env_1-Works = record { fills = zeros-NeverFails; delivers = λ m. refl }

-- The call of the handler in the first of these sessions.
abbrev pub served : Handled
served =
    handle_transport toy toy_exchange times_1 (some (3 ∷ [])) (4 ∷ []) accept_all false (ok msg_1)
      (err eof) toy_service

pub served-ok : (d : Dispatch) × (served.1 ≡ ok d)
served-ok =
    let r =
      dial_conn_session toy toy-IsLawful toy_exchange toy-IsKeyExchange draws accept_all 1000 1003
        place toy_client msg_1 state_1 toy_service [] [] times_1 (4 ∷ []) (1 ∷ []) (3 ∷ []) secret
        accept_all false (err eof) zeros-FillsBuffer zeros-FillsBuffer user-IsArray place-IsAddress
        written_1 toy_service-IsService refl tt (near 1000 1001 (omega arith) (omega arith))
        not_seen refl refl (near 1002 1003 (omega arith) (omega arith)) (λ m. refl) in
    (
      new_connection r.1 (record { user_uuid = user; destination = on_wire place }),
      ap (λ (x : Handled). x.1) r.3,
    )
