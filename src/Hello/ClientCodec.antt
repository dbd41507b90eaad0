-- ===== src/Hello/ClientCodec.antt =====
-- `EncodeClientHello` as a whole: when it succeeds, how long the message is, and what is read back.
use sing_ewp.Bytes.{put_uint16}
use sing_ewp.Kdf.{max_handshake_pad, min_handshake_pad, handshake_aead_key, outer_mac}
use sing_ewp.Errors.{ok}
use sing_ewp.Address.RoundTrip.{decode_address-wire}
use sing_ewp.Hello.ClientRoundTrip.{
  public_part, decode-seal, arrived, parse_inner-inner, length-inner,
}
use sing_ewp.Crypto.Random.{NeverFails, FillsBuffer, Reader}
use sing_ewp.Frame.PadLen.{suggest_pad_len_bounds, suggest_pad_len}
use sing_ewp.Hello.Layout.{IsClientHello}
use sing_ewp.Address.Wire.{wire, length-wire, sendable, append_lem, encoded_len_bounds}
use sing_ewp.Prelude.{
  ℕ, ◌≤◌, ◌++◌, arith, true, ◌↔◌, ◌≡◌, List, ◌∙◌, length, [], Option-cases, inr, ◌+◌, inl,
}
use sing_ewp.Hello.{
  decode_client_hello, ClientHello, encode_client_hello, inner, seal_client_hello, overhead,
  client_aad,
}
use sing_ewp.Crypto.{IsLawful, Primitives}
use sing_ewp.Address.{encoded_len}
use sing_ewp.Prelude.Int.{pos}

-- The padding of a ClientHello is 64 to 1024 bytes.
pad_bounds :
    (draw : Reader)
    → let n = suggest_pad_len draw (pos min_handshake_pad) (pos max_handshake_pad) in
      (min_handshake_pad ≤ n) × (n ≤ max_handshake_pad)
pad_bounds draw =
    let b =
      suggest_pad_len_bounds draw (pos min_handshake_pad) max_handshake_pad (omega arith)
        (omega arith) in
    (b.0, b.1)

seal_total :
    (p : Primitives) (ch : ClientHello) (plain : List ℕ)
    → length plain + overhead ≤ 65535
    → (msg : List ℕ) × (seal_client_hello p ch plain ≡ ok msg)
unfolding seal_client_hello
seal_total p ch plain h =
    let aad = client_aad ch (length plain + overhead) in
    let out = aad ++ p.seal (handshake_aead_key p ch.uuid ch.nonce) ch.nonce plain aad in
    (out ++ outer_mac p ch.uuid out, ground arith)

module _ (p : Primitives) (lawful : IsLawful p) (draw_len draw_pad : Reader)
    (fills : FillsBuffer draw_pad) where
  -- The parts of a message that was encoded.
  pub record Parts (ch : ClientHello) (msg : List ℕ) : Type 0 where
    pub pad : List ℕ
    pub sends : sendable ch.address ≡ true
    pub pad_min : min_handshake_pad ≤ length pad
    pub pad_max : length pad ≤ max_handshake_pad
    pub sealed : seal_client_hello p ch (inner ch (wire ch.address) pad) ≡ ok msg

  pub encode_hello_inv :
      (ch : ClientHello) (msg : List ℕ)
      → encode_client_hello p draw_len draw_pad ch ≡ ok msg
      → Parts ch msg
  encode_hello_inv ch msg h =
      let n = suggest_pad_len draw_len (pos min_handshake_pad) (pos max_handshake_pad) in
      let b = pad_bounds draw_len in
      let can : sendable ch.address ≡ true =
        unfold encode_client_hello in ground (arith, append_lem ch.address []) in
      elim (Option-cases (draw_pad n)) [
        | inl e ↦ absurd (unfold encode_client_hello in ground (arith, append_lem ch.address []))
        | inr (pad, e) ↦
            let size : length pad ≡ n = (fills n pad e).0 in
            record {
              pad = pad;
              sends = can;
              pad_min = omega (arith, size, b);
              pad_max = omega (arith, size, b);
              sealed = unfold encode_client_hello in ground (arith, append_lem ch.address []);
            }
      ]

  -- A ClientHello of Go's sizes that `EncodeClientHello` accepts is read back by `DecodeClientHello`
  -- under its UUID, every field as it was, but for the part of the address that is not sent. The
  -- message has 1350 to 2566 bytes.
  pub decode_client_hello-encode :
      (ch : ClientHello) (msg : List ℕ)
      → IsClientHello ch
      → encode_client_hello p draw_len draw_pad ch ≡ ok msg
      → (decode_client_hello p msg ch.uuid ≡ ok (arrived ch))
        × (1350 ≤ length msg)
        × (length msg ≤ 2566)
  decode_client_hello-encode ch msg w h =
      let parts = encode_hello_inv ch msg h in
      let addr = wire ch.address in
      let size : length addr ≡ encoded_len ch.address =
        length-wire ch.address w.address_typed parts.sends in
      let bounds = encoded_len_bounds ch.address parts.sends in
      let plain = inner ch addr parts.pad in
      let n = length-inner ch addr parts.pad w in
      let sealed = decode-seal p lawful ch plain msg w (omega (arith, n)) parts.sealed in
      let read =
        decode_address-wire ch.address (put_uint16 (length parts.pad) ++ parts.pad) w.address_typed
          parts.sends in
      let parsed =
        parse_inner-inner ch (public_part ch) addr parts.pad w (omega (arith, parts.pad_max))
          (omega (arith, size, bounds)) (rw size read) in
      (
        sealed.0 ∙ parsed,
        omega (arith, sealed.1, n, size, bounds, parts.pad_min),
        omega (arith, sealed.1, n, size, bounds, parts.pad_max),
      )

  -- With a working crypto/rand, `EncodeClientHello` succeeds exactly if the address can be sent: the
  -- message is never too long.
  pub encode_client_hello_ok_iff :
      NeverFails draw_pad
      → (ch : ClientHello) → IsClientHello ch
      → ((msg : List ℕ) × (encode_client_hello p draw_len draw_pad ch ≡ ok msg))
        ↔ (sendable ch.address ≡ true)
  encode_client_hello_ok_iff works ch w = (
    λ (msg, h). (encode_hello_inv ch msg h).sends,
    λ can.
        let n = suggest_pad_len draw_len (pos min_handshake_pad) (pos max_handshake_pad) in
        let (pad, e) = works n in
        let size : length pad ≡ n = (fills n pad e).0 in
        let addr = wire ch.address in
        let plain = inner ch addr pad in
        let short : length plain + overhead ≤ 65535 = omega (
          arith,
          length-inner ch addr pad w,
          length-wire ch.address w.address_typed can,
          encoded_len_bounds ch.address can,
          size,
          pad_bounds draw_len,
        ) in
        let (msg, m) = seal_total p ch plain short in
        (msg, unfold encode_client_hello in ground (arith, append_lem ch.address [], e, m)),
  )
