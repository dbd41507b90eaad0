-- ===== src/Handshake/Agreement.antt =====
-- Both sides of a handshake end with the same keys.
use sing_ewp.Hello.ServerRoundTrip.{decode_server_hello-encode}
use sing_ewp.Address.{Address}
use sing_ewp.Hello.Layout.{IsClientHello, IsServerHello}
use sing_ewp.Handshake.Asymmetric.{IsKeyExchange, KeyExchange}
use sing_ewp.Address.Wire.{IsAddress}
use sing_ewp.Crypto.Random.{FillsBuffer}
use sing_ewp.Hello.{
  command_udp, ClientHello, command_tcp, encode_client_hello, or_fail, decode_server_hello,
  encode_server_hello,
}
use sing_ewp.Bytes.{IsArray}
use sing_ewp.Handshake.{
  ClientDraws, write_client_hello, ClientHandshakeState, client_hello, respond, abs_diff,
  server_hello_of, server_keys,
}
use sing_ewp.Kdf.{uuid_len, handshake_nonce, derive_session_keys, handshake_timestamp_window}
use sing_ewp.Crypto.{Primitives, IsLawful}
use sing_ewp.Errors.{ok, reject-eq-ok, keygen, >>=-eq-ok, bad_command, transport}
use sing_ewp.Prelude.{
  ◌⊎◌, not, Bool, ◌%◌, ◌&&◌, ℕ, Option-cases, some, List, inl, arith, ◌^◌, ◌≡◌, inr, ◌==◌, ap, ◌≤◌,
  none, Option, bytes_eq_refl,
}

-- What `WriteClientHello` leaves behind when it returns.
pub record Written (p : Primitives) (kx : KeyExchange) (draws : ClientDraws) (now : ℕ)
    (uuid : List ℕ) (cmd : ℕ) (addr : Address) (msg : List ℕ) (st : ClientHandshakeState)
    : Type 0 where
  pub hello : ClientHello
  pub a : List ℕ
  pub d : List ℕ
  pub encoded : encode_client_hello p draws.pad_len draws.pad hello ≡ ok msg
  pub typed : IsClientHello hello
  pub state : st ≡ record {
    uuid = uuid;
    nonce = hello.nonce;
    x25519_priv = some a;
    mlkem_priv = some d;
    hello = hello;
  }
  pub public_keys : (hello.classical_pub ≡ kx.x25519_public a) × (hello.pq_pub ≡ kx.mlkem_public d)
  pub request :
      (hello.uuid ≡ uuid)
      × (hello.command ≡ cmd)
      × (hello.address ≡ addr)
      × (hello.timestamp ≡ now % 2 ^ 32)
  pub known : (cmd ≡ command_tcp) ⊎ (cmd ≡ command_udp)

module _ (p : Primitives) (kx : KeyExchange) (laws : IsKeyExchange kx) where
  client_hello_inv :
      (draws : ClientDraws) (now : ℕ) (uuid : List ℕ) (cmd : ℕ) (addr : Address) (a d : List ℕ)
      (hello : ClientHello)
      → client_hello p kx draws now uuid cmd addr a d ≡ ok hello
      → (nonce : List ℕ) × (draws.nonce handshake_nonce ≡ some nonce)
        × (hello ≡ record {
          nonce = nonce;
          classical_pub = kx.x25519_public a;
          pq_pub = kx.mlkem_public d;
          timestamp = now % 2 ^ 32;
          uuid = uuid;
          command = cmd;
          address = addr;
        })
  unfolding client_hello
  client_hello_inv draws now uuid cmd addr a d hello h =
      elim (Option-cases (draws.nonce handshake_nonce)) [
        | inl e ↦ absurd (ground arith)
        | inr (nonce, e) ↦ (nonce, e, ground arith)
      ]

  pub write_inv :
      (draws : ClientDraws) (send : List ℕ → Bool) (now : ℕ) (uuid : List ℕ) (cmd : ℕ)
      (addr : Address) (msg : List ℕ) (st : ClientHandshakeState)
      → FillsBuffer draws.nonce
      → IsArray uuid_len uuid
      → IsAddress addr
      → write_client_hello p kx draws send now uuid cmd addr ≡ ok (msg, st)
      → Written p kx draws now uuid cmd addr msg st
  unfolding write_client_hello
  write_inv draws send now uuid cmd addr msg st fills hu ha h =
      let bad = not (cmd == command_tcp) && not (cmd == command_udp) in
      let (good, h0) = reject-eq-ok bad bad_command _ h in
      let (a, ea, h1) = >>=-eq-ok (or_fail draws.x25519_key keygen) _ h0 in
      let (d, ed, h2) = >>=-eq-ok (or_fail draws.mlkem_key keygen) _ h1 in
      let (hello, eh, h3) = >>=-eq-ok (client_hello p kx draws now uuid cmd addr a d) _ h2 in
      let (out, eo, h4) = >>=-eq-ok (encode_client_hello p draws.pad_len draws.pad hello) _ h3 in
      let (sent, h5) = reject-eq-ok (not (send out)) transport _ h4 in
      let (nonce, en, e) = client_hello_inv draws now uuid cmd addr a d hello eh in
      let known : (cmd ≡ command_tcp) ⊎ (cmd ≡ command_udp) = ground (arith, good) in
      let same : out ≡ msg = ground (arith, h5) in
      record {
        hello = hello;
        a = a;
        d = d;
        encoded = rw same at eo;
        typed = rw e (record {
          nonce_size = fills handshake_nonce nonce en;
          classical_size = laws.x25519_size a;
          pq_size = laws.mlkem_size d;
          timestamp_fits = omega arith;
          uuid_size = hu;
          command_fits = ground (arith, known);
          address_typed = ha;
        });
        state = ground (arith, h5);
        public_keys =
            (ap (λ (c : ClientHello). c.classical_pub) e, ap (λ (c : ClientHello). c.pq_pub) e);
        request = (
          ap (λ (c : ClientHello). c.uuid) e,
          ap (λ (c : ClientHello). c.command) e,
          ap (λ (c : ClientHello). c.address) e,
          ap (λ (c : ClientHello). c.timestamp) e,
        );
        known = known;
      }

  -- A server that is sent the keys of a client answers, if the key agreement succeeds.
  pub respond_lem :
      (key : Option (List ℕ)) (coins : List ℕ) (now : ℕ) (ch : ClientHello) (a b d s : List ℕ)
      → key ≡ some b
      → ch.classical_pub ≡ kx.x25519_public a
      → ch.pq_pub ≡ kx.mlkem_public d
      → kx.ecdh b (kx.x25519_public a) ≡ some s
      → let e = kx.encapsulate (kx.mlkem_public d) coins in
        respond p kx key coins now ch
        ≡ ok (
          encode_server_hello p (server_hello_of p kx b e.1 now ch) ch.uuid,
          record {
            keys = derive_session_keys p s e.0 ch.nonce ch.nonce;
            client_hello = some ch;
            server_hello = none;
          },
        )
  unfolding respond
  respond_lem key coins now ch a b d s hk hc hq he =
      rw (hk, hc, hq, laws.x25519_accepts a, he, laws.mlkem_accepts d)
        (ground (arith, (laws.cipher_size (kx.mlkem_public d) coins).0))

  -- The client derives its keys from that answer.
  pub server_keys_lem :
      (lawful : IsLawful p) (st : ClientHandshakeState) (hello ch : ClientHello)
      (a b d s coins : List ℕ) (stamped now : ℕ)
      → IsClientHello hello
      → st ≡ record {
        uuid = hello.uuid;
        nonce = hello.nonce;
        x25519_priv = some a;
        mlkem_priv = some d;
        hello = hello;
      }
      → (ch.nonce ≡ hello.nonce) × (ch.uuid ≡ hello.uuid)
      → abs_diff (stamped % 2 ^ 32) now ≤ handshake_timestamp_window
      → kx.ecdh b (kx.x25519_public a) ≡ some s
      → let e = kx.encapsulate (kx.mlkem_public d) coins in
        let sh = server_hello_of p kx b e.1 stamped ch in
        server_keys p kx st now (encode_server_hello p sh ch.uuid)
        ≡ ok (record {
          keys = derive_session_keys p s e.0 hello.nonce hello.nonce;
          client_hello = none;
          server_hello = some sh;
        })
  server_keys_lem lawful st hello ch a b d s coins stamped now w hs same hw he =
      let e = kx.encapsulate (kx.mlkem_public d) coins in
      let sh = server_hello_of p kx b e.1 stamped ch in
      let typed : IsServerHello sh = record {
        nonce_size = rw (same.0) w.nonce_size;
        classical_size = laws.x25519_size b;
        pq_size = laws.cipher_size (kx.mlkem_public d) coins;
        time_fits = omega arith;
        status_fits = omega arith;
      } in
      let read : decode_server_hello p (encode_server_hello p sh ch.uuid) hello.uuid ≡ ok sh =
        rw (← same.1) (decode_server_hello-encode p sh ch.uuid lawful typed) in
      unfold server_keys in
      ground (
        arith,
        hs,
        read,
        bytes_eq_refl hello.nonce,
        same,
        laws.x25519_accepts b,
        laws.ecdh_agrees a b,
        laws.decapsulate-encapsulate d coins,
        he,
        hw,
      )
