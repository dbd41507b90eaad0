-- ===== src/Handshake/Toy.antt =====
-- A concrete key exchange that meets the laws: keys are checksums, and both sides add theirs up.
use sing_ewp.Hello.ClientRoundTrip.{arrived}
use sing_ewp.Handshake.EndToEnd.{Written-Authentic}
use sing_ewp.Handshake.Accept.{Authentic}
use sing_ewp.Handshake.Agreement.{write_inv}
use sing_ewp.Crypto.Random.{broken, zeros, zeros-FillsBuffer}
use sing_ewp.Hello.{command_udp, command_tcp}
use sing_ewp.Hello.Toy.{
  place, encoded_1, accept_all, encoded_2, msg_1, msg_2, hello_1, user, hello_2, place-IsAddress,
  user-IsArray,
}
use sing_ewp.Handshake.{
  client_hello, write_client_hello, check_replay, ClientDraws, ServerTimes, ClientHandshakeState,
  UuidLookup, make_uuid_lookup, abs_diff,
}
use sing_ewp.AntiReplay.{
  lookup, new_replay_cache, mark_seen_or_reject, replay_window, seen, ReplayCache,
}
use sing_ewp.Errors.{ok}
use sing_ewp.Bytes.{byte_at}
use sing_ewp.Handshake.Asymmetric.{KeyExchange, IsKeyExchange}
use sing_ewp.Prelude.{
  ◌%◌, replicate, length, suc, refl, List, ℕ, some, ap, ◌==◌, length-replicate, drop, ◌≡◌, ◌+◌,
  arith, [], ◌∷◌, true, subst, ◌≤◌, sym,
}
use sing_ewp.Crypto.Toy.{block, block-IsArray, checksum, toy, toy-IsLawful}
use native.Mathlib.Nat.{add_comm}

byte_at-replicate : (n b : ℕ) → byte_at 0 (replicate (suc n) b) ≡ b
unfolding byte_at drop replicate
byte_at-replicate n b = refl

abbrev pub toy_exchange : KeyExchange
toy_exchange = record {
  x25519_public = block 32;
  x25519_parses = λ k. length k == 32;
  ecdh = λ a k. some (replicate 32 ((checksum a + byte_at 0 k) % 256));
  mlkem_public = block 1184;
  mlkem_parses = λ k. length k == 1184;
  encapsulate = λ e r. (replicate 32 (checksum r), block 1088 r);
  decapsulate = λ d c. some (replicate 32 (byte_at 0 c));
}

toy-ecdh_agrees :
    (a b : List ℕ)
    → toy_exchange.ecdh a (toy_exchange.x25519_public b)
      ≡ toy_exchange.ecdh b (toy_exchange.x25519_public a)
toy-ecdh_agrees a b =
    rw (byte_at-replicate 31 (checksum a), byte_at-replicate 31 (checksum b))
      (ap (λ (k : ℕ). some (replicate 32 (k % 256))) (add_comm (checksum a) (checksum b)))

pub toy-IsKeyExchange : IsKeyExchange toy_exchange
toy-IsKeyExchange = record {
  x25519_size = block-IsArray 32;
  x25519_accepts = λ a. ground (arith, length-replicate 32 (checksum a));
  ecdh_agrees = toy-ecdh_agrees;
  mlkem_size = block-IsArray 1184;
  mlkem_accepts = λ d. ground (arith, length-replicate 1184 (checksum d));
  cipher_size = λ e r. block-IsArray 1088 r;
  decapsulate-encapsulate = λ d r. rw (byte_at-replicate 1087 (checksum r));
}

abbrev pub draws : ClientDraws
draws = record {
  x25519_key = some (1 ∷ []);
  mlkem_key = some (2 ∷ []);
  nonce = zeros;
  pad_len = broken;
  pad = zeros;
}

abbrev pub state_1 : ClientHandshakeState
state_1 = record {
  uuid = user;
  nonce = replicate 12 0;
  x25519_priv = some (1 ∷ []);
  mlkem_priv = some (2 ∷ []);
  hello = hello_1;
}

pub length-mlkem_public_1 : length (block 1184 (2 ∷ [])) ≡ 1184
length-mlkem_public_1 = (block-IsArray 1184 (2 ∷ [])).0

pub written_1 :
    write_client_hello toy toy_exchange draws accept_all 1000 user command_tcp place
    ≡ ok (msg_1, state_1)
unfolding write_client_hello client_hello
written_1 = rw (length-mlkem_public_1, encoded_1) refl

abbrev pub fresh_cache : ReplayCache
fresh_cache = new_replay_cache replay_window

abbrev pub times_1 : ServerTimes
times_1 = record { checked = 1001; marked = 1001; stamped = 1002 }

pub not_seen : (check_replay 1001 hello_1 (some fresh_cache)).1 ≡ true
unfolding check_replay mark_seen_or_reject seen lookup
not_seen = refl

abbrev pub state_2 : ClientHandshakeState
state_2 = record state_1 { hello = hello_2 }

pub written_2 :
    write_client_hello toy toy_exchange draws accept_all 1000 user command_udp place
    ≡ ok (msg_2, state_2)
unfolding write_client_hello client_hello
written_2 = rw (length-mlkem_public_1, encoded_2) refl

pub not_seen_2 : (check_replay 1001 hello_2 (some fresh_cache)).1 ≡ true
unfolding check_replay mark_seen_or_reject seen lookup
not_seen_2 = refl

abbrev pub users : UuidLookup
users = make_uuid_lookup toy (user ∷ [])

-- The message is authentic between 880 and 1120.
pub msg_1-Authentic :
    (now : ℕ) → 880 ≤ now → now ≤ 1120 → Authentic toy users now msg_1 (arrived hello_1)
msg_1-Authentic now lo hi =
    let w =
      write_inv toy toy_exchange toy-IsKeyExchange draws accept_all 1000 user command_tcp place
        msg_1 state_1 zeros-FillsBuffer user-IsArray place-IsAddress written_1 in
    let same : hello_1 ≡ w.hello = ap (λ (x : ClientHandshakeState). x.hello) w.state in
    subst (λ c. Authentic toy users now msg_1 (arrived c)) (sym same)
      (Written-Authentic toy toy-IsLawful toy_exchange toy-IsKeyExchange draws 1000 user command_tcp
        place msg_1 state_1 [] [] now w zeros-FillsBuffer tt (unfold abs_diff in ground arith))
