-- ===== src/Service/Dispatched.antt =====
-- What a successful handleTransport comes from.
use sing_ewp.PacketConn.{new_server_packet_conn}
use sing_ewp.Handshake.Asymmetric.{KeyExchange}
use sing_ewp.Crypto.{Primitives}
use sing_ewp.Kdf.{SessionKeys, mlkem768_cipher_len}
use sing_ewp.Handshake.{
  ServerTimes, HandshakeResult, respond, accept_client_hello, check_replay, authenticate,
  UuidLookup,
}
use sing_ewp.Hello.{command_tcp, ClientHello, command_udp, or_fail}
use sing_ewp.Errors.{
  ◌>>=◌, Result-cases, Result, ok, >>=-eq-ok, peer_key, reject-eq-ok, keygen, Error, cipher_size,
  nil_key, key_agreement,
}
use sing_ewp.AntiReplay.{ReplayCache}
use sing_ewp.Frame.{udp_new}
use sing_ewp.Prelude.{
  ◌==◌, some, ◌≡◌, [], arith, refl, Bool-cases, true, Bool, ℕ, not, false, inl, inr, List, Option,
  ◌∙◌, sym, length, none, if◌then◌else◌,
}
use sing_ewp.Service.{
  Metadata, dispatch, new_connection, dispatch_udp, new_packet_connection, Dispatch, Service,
  handle_transport, offer,
}
use sing_ewp.SecureStream.{SecureStream, recv_event, new_server_stream}

abbrev pub metadata_of : Dispatch → Metadata
metadata_of (new_connection c m) = m
metadata_of (new_packet_connection c m) = m

abbrev pub is_stream : Dispatch → Bool
is_stream (new_connection c m) = true
is_stream (new_packet_connection c m) = false

module _ (p : Primitives) where
  dispatch_udp-metadata :
      (underlying : Bool) (stream : SecureStream) (m : Metadata) (first : Result (List ℕ))
      (d : Dispatch)
      → dispatch_udp p underlying stream m first ≡ ok d
      → (metadata_of d ≡ m) × (is_stream d ≡ false)
  unfolding dispatch_udp
  dispatch_udp-metadata underlying stream m first d h =
      let (ev, e1, h1) = >>=-eq-ok ((recv_event p first stream).1) _ h in
      elim (Bool-cases (ev.type == udp_new)) [
        | inr e ↦ absurd (ground (arith, e, h1))
        | inl e ↦
            let dst = if ev.has_addr then ev.address else m.destination in
            let c =
              new_server_packet_conn (recv_event p first stream).0 underlying ev.global_id dst
                ev.payload in
            let same : new_packet_connection c m ≡ d = ground (arith, e, h1) in
            rw (← same) (refl, refl)
      ]

  pub dispatch-metadata :
      (underlying : Bool) (ch : ClientHello) (keys : SessionKeys) (first : Result (List ℕ))
      (d : Dispatch)
      → dispatch p underlying ch keys first ≡ ok d
      → (metadata_of d ≡ record { user_uuid = ch.uuid; destination = ch.address })
        × (is_stream d ≡ (ch.command == command_tcp))
  unfolding dispatch
  dispatch-metadata underlying ch keys first d h =
      let stream = new_server_stream keys in
      let m : Metadata = record { user_uuid = ch.uuid; destination = ch.address } in
      elim (Bool-cases (ch.command == command_tcp)) [
        | inl e ↦
            let same : new_connection (record { stream = stream; read_buf = [] }) m ≡ d =
              ground (arith, e, h) in
            rw (← same) (refl, sym e)
        | inr e ↦ elim (Bool-cases (ch.command == command_udp)) [
          | inr f ↦ absurd (ground (arith, e, f, h))
          | inl f ↦
              let r = dispatch_udp-metadata underlying stream m first d (ground (arith, e, f, h)) in
              (r.0, r.1 ∙ sym e)
        ]
      ]

  or_fail-ok : {A : Type 0} (o : Option A) (e : Error) (a : A) → or_fail o e ≡ ok a → o ≡ some a
  or_fail-ok none e a h = cc
  or_fail-ok (some x) e a h = cc

  module _ (kx : KeyExchange) where
    pub respond_hello :
        (key : Option (List ℕ)) (coins : List ℕ) (now : ℕ) (ch : ClientHello) (out : List ℕ)
        (res : HandshakeResult)
        → respond p kx key coins now ch ≡ ok (out, res)
        → res.client_hello ≡ some ch
    unfolding respond
    respond_hello key coins now ch out res h =
        let (b, e0, h0) = >>=-eq-ok (or_fail key keygen) _ h in
        let (k0, h1) = reject-eq-ok (not (kx.x25519_parses ch.classical_pub)) peer_key _ h0 in
        let (z, e1, h2) = >>=-eq-ok (or_fail (kx.ecdh b ch.classical_pub) key_agreement) _ h1 in
        let (k1, h3) = reject-eq-ok (not (kx.mlkem_parses ch.pq_pub)) peer_key _ h2 in
        let c = (kx.encapsulate ch.pq_pub coins).1 in
        let (k2, h4) = reject-eq-ok (not (length c == mlkem768_cipher_len)) cipher_size _ h3 in
        ground (arith, h4)

    pub accept_inv :
        (find_uuid : UuidLookup) (times : ServerTimes) (key : Option (List ℕ))
        (coins msg out : List ℕ) (cache : Option ReplayCache) (res : HandshakeResult)
        → (accept_client_hello p kx find_uuid times key coins msg cache).1 ≡ ok (out, res)
        → (ch : ClientHello) × (authenticate p find_uuid times.checked msg ≡ ok ch)
          × ((check_replay times.marked ch cache).1 ≡ true)
          × (respond p kx key coins times.stamped ch ≡ ok (out, res))
    unfolding accept_client_hello
    accept_inv find_uuid times key coins msg out cache res h =
        elim (Result-cases (authenticate p find_uuid times.checked msg)) [
          | inr (e, q) ↦ absurd (ground (arith, q, h))
          | inl (ch, q) ↦ (ch, q, ground (arith, q, h), ground (arith, q, h))
        ]

    pub handle_inv :
        (times : ServerTimes) (key : Option (List ℕ)) (coins : List ℕ) (delivers : List ℕ → Bool)
        (underlying : Bool) (msg : List ℕ) (first : Result (List ℕ)) (s s' : Service) (d : Dispatch)
        (sent : List (List ℕ))
        → handle_transport p kx times key coins delivers underlying (ok msg) first s
          ≡ (s', ok d, sent)
        → (out : List ℕ) × (res : HandshakeResult) × (ch : ClientHello) × ((accept_client_hello p kx
              s.lookup times key coins msg s.replay).1
            ≡ ok (out, res))
          × (delivers out ≡ true)
          × (res.client_hello ≡ some ch)
          × (dispatch p underlying ch res.keys first ≡ ok d)
    unfolding handle_transport offer
    handle_inv times key coins delivers underlying msg first s s' d sent h =
        let r = (accept_client_hello p kx s.lookup times key coins msg s.replay).1 in
        elim (Result-cases r) [
          | inr (e, q) ↦ absurd (ground (arith, q, h))
          | inl ((out, res), q) ↦ elim (Bool-cases (delivers out)) [
            | inr e ↦ absurd (ground (arith, q, e, h))
            | inl e ↦
                let h1 : (or_fail res.client_hello nil_key >>= λ ch.
                dispatch p underlying ch res.keys first)
                    ≡ ok d =
                  ground (arith, q, e, h) in
                let (ch, e1, h2) = >>=-eq-ok (or_fail res.client_hello nil_key) _ h1 in
                (out, res, ch, q, e, or_fail-ok res.client_hello nil_key ch e1, h2)
          ]
        ]
