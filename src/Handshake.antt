-- ===== src/Handshake.antt =====
-- handshake.go: the two sides of the handshake, over the codecs of Hello.
pub mod Asymmetric
pub mod Lookup
pub mod Accept
pub mod Agreement
pub mod EndToEnd
pub mod Replay
pub mod Toy
mod Tests
use sing_ewp.Crypto.Random.{Reader}
use sing_ewp.AntiReplay.{mark_seen_or_reject, ReplayCache}
use sing_ewp.Handshake.Asymmetric.{KeyExchange}
use sing_ewp.Kdf.{
  handshake_timestamp_window, mlkem768_pub_len, verify_outer_mac, outer_mac_len,
  mlkem768_cipher_len, SessionKeys, handshake_nonce, derive_session_keys,
}
use sing_ewp.Address.{Address}
use sing_ewp.Crypto.{Primitives}
use sing_ewp.Prelude.{
  some, take, ltb, [], ◌∷◌, bytes_eq, ◌==◌, ◌-◌, true, ℕ, ◌^◌, ◌&&◌, not, if◌then◌else◌, drop,
  Option, none, length, List, Bool, ◌%◌,
}
use sing_ewp.Hello.{
  command_tcp, or_fail, ClientHello, command_udp, encode_server_hello, encode_client_hello,
  decode_server_hello, decode_client_hello, ServerHello,
}
use sing_ewp.Errors.{
  rand, Result, bad_command, reject, bad_timestamp, transport, handshake_short, ok, key_agreement,
  outer_mac_error, cipher_size, uuid_mismatch, keygen, peer_key, replayed, server_status, err,
  unknown_uuid, decapsulation, nil_key, ◌>>=◌, ◌>>◌,
}

-- absDiff of two times that are not negative
unfoldable pub abs_diff : ℕ → ℕ → ℕ
abs_diff a b = if ltb b a then a - b else b - a

-- `lookup(msg, mac)`
abbrev pub UuidLookup : Type 0
UuidLookup = List ℕ → List ℕ → Result (List ℕ)

pub record HandshakeResult : Type 0 where
  pub keys : SessionKeys
  pub client_hello : Option ClientHello
  pub server_hello : Option ServerHello

pub record ClientHandshakeState : Type 0 where
  pub uuid : List ℕ
  pub nonce : List ℕ
  -- nil once the keys are derived
  pub x25519_priv : Option (List ℕ)
  pub mlkem_priv : Option (List ℕ)
  pub hello : ClientHello

-- The random inputs of WriteClientHello: the two key generations, the nonce, and the padding.
pub record ClientDraws : Type 0 where
  pub x25519_key : Option (List ℕ)
  pub mlkem_key : Option (List ℕ)
  pub nonce : Reader
  pub pad_len : Reader
  pub pad : Reader

-- `time.Now()` at its three uses in AcceptClientHelloWithReplay.
pub record ServerTimes : Type 0 where
  pub checked : ℕ
  pub marked : ℕ
  pub stamped : ℕ

module _ (p : Primitives) where
  -- MakeUUIDLookup
  unfoldable pub make_uuid_lookup : List (List ℕ) → UuidLookup
  make_uuid_lookup [] msg mac = err unknown_uuid
  make_uuid_lookup (u ∷ uuids) msg mac =
      if verify_outer_mac p u msg mac then ok u else make_uuid_lookup uuids msg mac

module _ (p : Primitives) where
  -- AcceptClientHelloWithReplay up to the replay check.
  unfoldable pub authenticate : UuidLookup → ℕ → List ℕ → Result ClientHello
  authenticate find_uuid now msg = do
    reject (ltb (length msg) outer_mac_len) handshake_short
    let mac_start = length msg - outer_mac_len
    uuid ← find_uuid (take mac_start msg) (drop mac_start msg)
    ch ← decode_client_hello p msg uuid
    reject (not (bytes_eq ch.uuid uuid)) uuid_mismatch
    reject (not (ch.command == command_tcp) && not (ch.command == command_udp)) bad_command
    reject (ltb handshake_timestamp_window (abs_diff ch.timestamp now)) bad_timestamp
    ok ch

-- `if cache != nil { if !cache.MarkSeenOrReject(…) { return ErrReplay } }`
unfoldable pub check_replay : ℕ → ClientHello → Option ReplayCache → Option ReplayCache × Bool
check_replay now ch none = (none, true)
check_replay now ch (some cache) =
    let (cache', fresh) = mark_seen_or_reject now ch.uuid ch.nonce cache in (some cache', fresh)

module _ (p : Primitives) (kx : KeyExchange) where
  -- The ClientHello of WriteClientHello. The size check on the ML-KEM key is its.
  unfoldable pub client_hello :
      ClientDraws → ℕ → List ℕ → ℕ → Address → List ℕ → List ℕ → Result ClientHello
  client_hello draws now uuid cmd addr x25519_priv mlkem_priv = do
    nonce ← or_fail (draws.nonce handshake_nonce) rand
    let pq_pub = kx.mlkem_public mlkem_priv
    reject (not (length pq_pub == mlkem768_pub_len)) cipher_size
    ok (record {
      nonce = nonce;
      classical_pub = kx.x25519_public x25519_priv;
      pq_pub = pq_pub;
      timestamp = now % 2 ^ 32;
      uuid = uuid;
      command = cmd;
      address = addr;
    })

  -- WriteClientHello: the message that is given to `send`, and the state if `send` returns no error.
  unfoldable pub write_client_hello :
      ClientDraws
      → (List ℕ → Bool)
      → ℕ
      → List ℕ
      → ℕ
      → Address
      → Result (List ℕ × ClientHandshakeState)
  write_client_hello draws send now uuid cmd addr = do
    reject (not (cmd == command_tcp) && not (cmd == command_udp)) bad_command
    x25519_priv ← or_fail draws.x25519_key keygen
    mlkem_priv ← or_fail draws.mlkem_key keygen
    hello ← client_hello draws now uuid cmd addr x25519_priv mlkem_priv
    msg ← encode_client_hello p draws.pad_len draws.pad hello
    reject (not (send msg)) transport
    ok (
      msg,
      record {
        uuid = uuid;
        nonce = hello.nonce;
        x25519_priv = some x25519_priv;
        mlkem_priv = some mlkem_priv;
        hello = hello;
      },
    )

  -- The result of ReadServerHello. The zeroing of the shared secrets changes nothing that is returned.
  unfoldable pub server_keys : ClientHandshakeState → ℕ → List ℕ → Result HandshakeResult
  server_keys s now msg = do
    sh ← decode_server_hello p msg s.uuid
    reject (not (bytes_eq sh.nonce_echo s.nonce)) outer_mac_error
    reject (not (sh.status == 0)) (server_status sh.status)
    reject (ltb handshake_timestamp_window (abs_diff sh.server_time now)) bad_timestamp
    reject (not (kx.x25519_parses sh.classical_pub)) peer_key
    x25519_priv ← or_fail s.x25519_priv nil_key
    classical ← or_fail (kx.ecdh x25519_priv sh.classical_pub) key_agreement
    mlkem_priv ← or_fail s.mlkem_priv nil_key
    pq ← or_fail (kx.decapsulate mlkem_priv sh.pq_cipher) decapsulation
    ok (record {
      keys = derive_session_keys p classical pq s.hello.nonce sh.nonce_echo;
      client_hello = none;
      server_hello = some sh;
    })

  -- ReadServerHello: the private keys are dropped on success.
  unfoldable pub read_server_hello :
      ClientHandshakeState → ℕ → List ℕ → ClientHandshakeState × Result HandshakeResult
  read_server_hello s now msg = elim (server_keys s now msg) [
    | err e ↦ (s, err e)
    | ok r ↦ (record s { x25519_priv = none; mlkem_priv = none }, ok r)
  ]

  abbrev pub server_hello_of : List ℕ → List ℕ → ℕ → ClientHello → ServerHello
  server_hello_of x25519_priv pq_cipher now ch = record {
    nonce_echo = ch.nonce;
    classical_pub = kx.x25519_public x25519_priv;
    pq_cipher = pq_cipher;
    server_time = now % 2 ^ 32;
    status = 0;
  }

  -- The key agreement and the ServerHello, after the replay check. The arguments are the generated key
  -- and the randomness of the encapsulation. `uuid` is equal to `ch.uuid` there.
  unfoldable pub respond :
      Option (List ℕ) → List ℕ → ℕ → ClientHello → Result (List ℕ × HandshakeResult)
  respond x25519_key coins now ch = do
    x25519_priv ← or_fail x25519_key keygen
    reject (not (kx.x25519_parses ch.classical_pub)) peer_key
    classical ← or_fail (kx.ecdh x25519_priv ch.classical_pub) key_agreement
    reject (not (kx.mlkem_parses ch.pq_pub)) peer_key
    let (pq_shared, pq_cipher) = kx.encapsulate ch.pq_pub coins
    reject (not (length pq_cipher == mlkem768_cipher_len)) cipher_size
    let sh = server_hello_of x25519_priv pq_cipher now ch
    ok (
      encode_server_hello p sh ch.uuid,
      record {
        keys = derive_session_keys p classical pq_shared ch.nonce sh.nonce_echo;
        client_hello = some ch;
        server_hello = none;
      },
    )

  -- AcceptClientHelloWithReplay: the cache after the call, and the ServerHello with the result.
  unfoldable pub accept_client_hello :
      UuidLookup
      → ServerTimes
      → Option (List ℕ)
      → List ℕ
      → List ℕ
      → Option ReplayCache
      → Option ReplayCache × Result (List ℕ × HandshakeResult)
  accept_client_hello find_uuid times x25519_key coins msg cache =
      elim (authenticate p find_uuid times.checked msg) [
        | err e ↦ (cache, err e)
        | ok ch ↦
            let (cache', fresh) = check_replay times.marked ch cache in
            if fresh
            then (cache', respond x25519_key coins times.stamped ch)
            else (cache', err replayed)
      ]
