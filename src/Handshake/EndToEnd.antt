-- ===== src/Handshake/EndToEnd.antt =====
-- The whole handshake, from the client's hello to the keys of both sides.
use sing_ewp.Address.{Address}
use sing_ewp.Errors.{ok}
use sing_ewp.Bytes.{IsArray}
use sing_ewp.AntiReplay.{ReplayCache}
use sing_ewp.Hello.{ClientHello, encode_server_hello}
use sing_ewp.Crypto.Random.{FillsBuffer}
use sing_ewp.Address.Wire.{on_wire, IsAddress}
use sing_ewp.Handshake.Accept.{
  encode-signature, Authentic-authenticate, unsigned, Authentic, signature,
}
use sing_ewp.Crypto.{IsLawful, Primitives}
use sing_ewp.Hello.ClientCodec.{decode_client_hello-encode}
use sing_ewp.Handshake.Agreement.{respond_lem, server_keys_lem, Written, write_inv}
use sing_ewp.Handshake.Asymmetric.{IsKeyExchange, KeyExchange}
use sing_ewp.Handshake.Lookup.{make_uuid_lookup_finds}
use sing_ewp.Hello.ClientRoundTrip.{arrived}
use sing_ewp.Kdf.{verify_outer_mac, uuid_len, handshake_timestamp_window, derive_session_keys}
use sing_ewp.Handshake.{
  abs_diff, make_uuid_lookup, write_client_hello, ClientHandshakeState, HandshakeResult,
  read_server_hello, ServerTimes, ClientDraws, check_replay, accept_client_hello, authenticate,
  UuidLookup, server_hello_of, server_keys, respond,
}
use sing_ewp.Prelude.{
  ℕ, ◌^◌, ◌%◌, false, true, arith, some, All, Bool, ◌++◌, ◌≡◌, List, ◌∷◌, refl, ◌≤◌, Option, none,
  sym, ap, subst, ◌∙◌,
}

-- Both sides hold the same keys, and the server knows the request.
pub record Agreed (st : ClientHandshakeState) (uuid : List ℕ) (cmd : ℕ) (addr : Address)
    (server client : HandshakeResult) : Type 0 where
  pub same_keys : client.keys ≡ server.keys
  pub hello : ClientHello
  pub received : server.client_hello ≡ some hello
  pub user : hello.uuid ≡ uuid
  pub command : hello.command ≡ cmd
  pub destination : hello.address ≡ on_wire addr
  pub nonce : hello.nonce ≡ st.nonce

module _ (p : Primitives) (lawful : IsLawful p) (kx : KeyExchange) (laws : IsKeyExchange kx) where
  check_replay-arrived :
      (t : ℕ) (ch : ClientHello) (cache : Option ReplayCache)
      → check_replay t (arrived ch) cache ≡ check_replay t ch cache
  unfolding check_replay
  check_replay-arrived t ch none = refl
  check_replay-arrived t ch (some cache) = refl

  -- An authentic hello that is not a replay gets the server's answer.
  accept_lem :
      (find_uuid : UuidLookup) (times : ServerTimes) (key : Option (List ℕ)) (coins msg : List ℕ)
      (cache : Option ReplayCache) (ch : ClientHello)
      → authenticate p find_uuid times.checked msg ≡ ok ch
      → (check_replay times.marked ch cache).1 ≡ true
      → (accept_client_hello p kx find_uuid times key coins msg cache).1
        ≡ respond p kx key coins times.stamped ch
  unfolding accept_client_hello
  accept_lem find_uuid times key coins msg cache ch h fresh = ground arith

  read_ok :
      (st : ClientHandshakeState) (now : ℕ) (out : List ℕ) (r : HandshakeResult)
      → server_keys p kx st now out ≡ ok r
      → (read_server_hello p kx st now out).1 ≡ ok r
  unfolding read_server_hello
  read_ok st now out r h = ground arith

  -- A ClientHello that was written is authentic for a server that lists its user.
  pub Written-Authentic :
      (draws : ClientDraws) (now : ℕ) (uuid : List ℕ) (cmd : ℕ) (addr : Address) (msg : List ℕ)
      (st : ClientHandshakeState) (before after : List (List ℕ)) (checked : ℕ)
      (w : Written p kx draws now uuid cmd addr msg st)
      → FillsBuffer draws.pad
      → All (λ v. verify_outer_mac p v (unsigned msg) (signature msg) ≡ false) before
      → abs_diff (now % 2 ^ 32) checked ≤ handshake_timestamp_window
      → Authentic p (make_uuid_lookup p (before ++ (uuid ∷ after))) checked msg (arrived w.hello)
  Written-Authentic draws now uuid cmd addr msg st before after checked w fills others near =
      let codec =
        decode_client_hello-encode p lawful draws.pad_len draws.pad fills w.hello msg w.typed
          w.encoded in
      let signed = encode-signature p lawful draws.pad_len draws.pad fills w.hello msg w.encoded in
      let r = w.request in
      record {
        long_enough = signed.0;
        user = rw (r.0) (
            make_uuid_lookup_finds p before after (unsigned msg) (signature msg) uuid others
              (rw (r.0) at signed.1));
        decoded = codec.0;
        known = rw (r.1) w.known;
        in_window = rw (r.3) near;
      }

  agreement_of_Written :
      (draws : ClientDraws) (now : ℕ) (uuid : List ℕ) (cmd : ℕ) (addr : Address) (msg : List ℕ)
      (st : ClientHandshakeState) (find_uuid : UuidLookup) (times : ServerTimes)
      (coins b s : List ℕ) (cache : Option ReplayCache) (later : ℕ)
      (w : Written p kx draws now uuid cmd addr msg st)
      → Authentic p find_uuid times.checked msg (arrived w.hello)
      → (check_replay times.marked w.hello cache).1 ≡ true
      → kx.ecdh b (kx.x25519_public w.a) ≡ some s
      → abs_diff (times.stamped % 2 ^ 32) later ≤ handshake_timestamp_window
      → (out : List ℕ) × (server : HandshakeResult) × (client : HandshakeResult)
        × ((accept_client_hello p kx find_uuid times (some b) coins msg cache).1 ≡ ok (out, server))
        × ((read_server_hello p kx st later out).1 ≡ ok client)
        × Agreed st uuid cmd addr server client
  agreement_of_Written draws now uuid cmd addr msg st find_uuid times coins b s cache later w au
        fresh he near =
      let hello = w.hello in
      let ch = arrived hello in
      let d = w.d in
      let req = w.request in
      let e = kx.encapsulate (kx.mlkem_public d) coins in
      let sh = server_hello_of p kx b e.1 times.stamped ch in
      let out = encode_server_hello p sh ch.uuid in
      let keys = derive_session_keys p s e.0 hello.nonce hello.nonce in
      let auth = Authentic-authenticate p find_uuid times.checked msg ch au in
      let new : (check_replay times.marked ch cache).1 ≡ true =
        rw (check_replay-arrived times.marked hello cache) fresh in
      let answer =
        respond_lem p kx laws (some b) coins times.stamped ch w.a b d s refl w.public_keys.0
          w.public_keys.1 he in
      let derived =
        server_keys_lem p kx laws lawful st hello ch w.a b d s coins times.stamped later w.typed
          (w.state ∙ (rw (req.0))) (refl, refl) near he in
      (
        out,
        record { keys = keys; client_hello = some ch; server_hello = none },
        record { keys = keys; client_hello = none; server_hello = some sh },
        accept_lem find_uuid times (some b) coins msg cache ch auth new ∙ answer,
        read_ok st later out _ derived,
        record {
          same_keys = refl;
          hello = ch;
          received = refl;
          user = req.0;
          command = req.1;
          destination = ap on_wire req.2;
          nonce = sym (ap (λ (x : ClientHandshakeState). x.nonce) w.state);
        },
      )

  -- A client with a valid request and a server that lists the client's UUID agree. Let the client's
  -- hello be written and delivered, no UUID before the client's in the list have its MAC, both clocks
  -- be within 120 seconds when each side checks, the replay cache hold no live entry for the hello,
  -- and the server's key generation and ECDH succeed. Then the server answers, the client accepts the
  -- answer, both derive the same session keys, and the server has the client's UUID, command, nonce,
  -- and the destination in the form in which addresses are sent.
  pub handshake_agreement :
      (draws : ClientDraws) (send : List ℕ → Bool) (now : ℕ) (uuid : List ℕ) (cmd : ℕ)
      (addr : Address) (msg : List ℕ) (st : ClientHandshakeState) (before after : List (List ℕ))
      (times : ServerTimes) (coins a b s : List ℕ) (cache : Option ReplayCache) (later : ℕ)
      → FillsBuffer draws.nonce
      → FillsBuffer draws.pad
      → IsArray uuid_len uuid
      → IsAddress addr
      → write_client_hello p kx draws send now uuid cmd addr ≡ ok (msg, st)
      → All (λ v. verify_outer_mac p v (unsigned msg) (signature msg) ≡ false) before
      → abs_diff (now % 2 ^ 32) times.checked ≤ handshake_timestamp_window
      → (check_replay times.marked st.hello cache).1 ≡ true
      → st.x25519_priv ≡ some a
      → kx.ecdh b (kx.x25519_public a) ≡ some s
      → abs_diff (times.stamped % 2 ^ 32) later ≤ handshake_timestamp_window
      → let find_uuid = make_uuid_lookup p (before ++ (uuid ∷ after)) in
        (out : List ℕ) × (server : HandshakeResult) × (client : HandshakeResult)
        × ((accept_client_hello p kx find_uuid times (some b) coins msg cache).1 ≡ ok (out, server))
        × ((read_server_hello p kx st later out).1 ≡ ok client)
        × Agreed st uuid cmd addr server client
  handshake_agreement draws send now uuid cmd addr msg st before after times coins a b s cache later
        fn fp hu ha h others near fresh hk he near' =
      let w = write_inv p kx laws draws send now uuid cmd addr msg st fn hu ha h in
      let key : w.a ≡ a = ground (arith, w.state) in
      let hello : st.hello ≡ w.hello = ap (λ (x : ClientHandshakeState). x.hello) w.state in
      agreement_of_Written draws now uuid cmd addr msg st _ times coins b s cache later w
        (Written-Authentic draws now uuid cmd addr msg st before after times.checked w fp others
          near)
        (subst (λ c. (check_replay times.marked c cache).1 ≡ true) hello fresh) (rw key he) near'
