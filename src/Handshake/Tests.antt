-- ===== src/Handshake/Tests.antt =====
-- A handshake with the concrete primitives, between a client and a server that lists its user.
use sing_ewp.Handshake.Replay.{early_hello_answered_twice}
use sing_ewp.Hello.{command_tcp}
use sing_ewp.Handshake.Toy.{
  toy_exchange, toy-IsKeyExchange, draws, times_1, not_seen, written_1, state_1, fresh_cache,
  msg_1-Authentic, users,
}
use sing_ewp.Handshake.Accept.{Authentic, authenticate_iff}
use sing_ewp.Handshake.EndToEnd.{Agreed, handshake_agreement}
use sing_ewp.Hello.Toy.{msg_1, place, hello_1, user-IsArray, user, place-IsAddress, accept_all}
use sing_ewp.Bytes.{byte_at}
use sing_ewp.Hello.ClientRoundTrip.{arrived}
use sing_ewp.AntiReplay.{mark_seen_or_reject, ReplayCache, lookup, Call, seen}
use sing_ewp.Crypto.Toy.{checksum, toy-IsLawful, toy, block}
use sing_ewp.Prelude.{[], true, arith, ◌≡◌, ◌↔◌, ◌∷◌, some, refl, ◌+◌, ◌%◌, ℕ, replicate, List}
use sing_ewp.Errors.{ok}
use sing_ewp.Crypto.Random.{zeros-FillsBuffer}
use sing_ewp.Handshake.{
  accept_client_hello, respond, read_server_hello, authenticate, HandshakeResult, abs_diff,
  ServerTimes,
}

handshake_agreement_example :
    (out : List ℕ) × (server : HandshakeResult) × (client : HandshakeResult) × ((accept_client_hello
        toy toy_exchange users times_1
        (some (3 ∷ []))
        (4 ∷ [])
        msg_1
        (some fresh_cache)).1
      ≡ ok (out, server))
    × ((read_server_hello toy toy_exchange state_1 1003 out).1 ≡ ok client)
    × Agreed state_1 user command_tcp place server client
handshake_agreement_example =
    handshake_agreement toy toy-IsLawful toy_exchange toy-IsKeyExchange draws accept_all 1000 user
      command_tcp place msg_1 state_1 [] [] times_1 (4 ∷ []) (1 ∷ []) (3 ∷ [])
      (replicate 32 ((checksum (3 ∷ []) + byte_at 0 (block 32 (1 ∷ []))) % 256)) (some fresh_cache)
      1003 zeros-FillsBuffer zeros-FillsBuffer user-IsArray place-IsAddress written_1 tt
      (unfold abs_diff in omega arith) not_seen refl refl (unfold abs_diff in omega arith)

authenticate_iff_example :
    (authenticate toy users 1001 msg_1 ≡ ok (arrived hello_1))
    ↔ Authentic toy users 1001 msg_1 (arrived hello_1)
authenticate_iff_example = authenticate_iff toy users 1001 msg_1 (arrived hello_1)

abbrev replay_times : ServerTimes
replay_times = record { checked = 1100; marked = 1101; stamped = 1101 }

abbrev other : List Call
other = record { now = 1010; uuid = user; nonce = replicate 12 1 } ∷ []

abbrev seen_at : ℕ → ReplayCache
seen_at now = (mark_seen_or_reject now user (replicate 12 0) fresh_cache).0

accepted_at : (now : ℕ) → (mark_seen_or_reject now user (replicate 12 0) fresh_cache).1 ≡ true
unfolding mark_seen_or_reject seen lookup
accepted_at now = refl

abbrev late_times : ServerTimes
late_times = record { checked = 1120; marked = 1120; stamped = 1120 }

early_hello_answered_twice_example :
    (accept_client_hello toy toy_exchange users late_times
      (some (5 ∷ []))
      []
      msg_1
      (some (seen_at 930))).1
    ≡ respond toy toy_exchange (some (5 ∷ [])) [] 1120 (arrived hello_1)
early_hello_answered_twice_example =
    early_hello_answered_twice toy toy_exchange users 930 930 msg_1 (arrived hello_1) fresh_cache
      late_times (some (5 ∷ [])) [] tt refl (msg_1-Authentic 930 (omega arith) (omega arith))
      (accepted_at 930) (omega arith) refl refl
