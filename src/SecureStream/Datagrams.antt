-- ===== src/SecureStream/Datagrams.antt =====
-- SendUDPNew, SendUDPData and SendProbeResp, and what the other side gets.
use sing_ewp.SecureStream.UdpMeta.RoundTrip.{parse_udp_meta-build_udp_meta}
use sing_ewp.Prelude.Int.{negsuc}
use sing_ewp.Bytes.{IsArray}
use sing_ewp.Address.{Address}
use sing_ewp.SecureStream.UdpMeta.{build_udp_meta, parse_udp_meta, has_target}
use sing_ewp.Frame.{DecodedFrame}
use sing_ewp.SecureStream.Delivery.{frame_arrives, frame_of, Linked, count_received}
use sing_ewp.Crypto.Random.{FillsBuffer}
use sing_ewp.Crypto.{IsLawful, Primitives}
use sing_ewp.Prelude.{Bool, refl, List, [], ◌∙◌, ◌≡◌, ℕ, arith, true, none, ◌∷◌}
use sing_ewp.SecureStream.{
  SendEnv, carries_address, send_with_meta, send_frame, SecureStream, recv_event, event_of, deliver,
  Event,
}
use sing_ewp.Address.Wire.{on_wire, IsAddress}
use sing_ewp.Errors.{err, Result, ok}

pub event_of_udp :
    (s : SecureStream) (t : ℕ) (gid meta payload : List ℕ) (a : Address) (b : Bool)
    → carries_address t ≡ true
    → parse_udp_meta meta ≡ ok (gid, a, b)
    → event_of (frame_of s t meta payload)
      ≡ ok (record { type = t; global_id = gid; address = a; has_addr = b; payload = payload })
unfolding event_of
event_of_udp s t gid meta payload a b h q = rw (h, q)

module _ (p : Primitives) where
  pub deliver_ok :
      (r : SecureStream) (fr : DecodedFrame) (ev : Event)
      → event_of fr ≡ ok ev
      → deliver p r fr ≡ (r, ok ev)
  unfolding deliver
  deliver_ok r fr ev h = ground (arith, h)

  pub meta_built :
      (env : SendEnv) (t : ℕ) (m : Result (List ℕ)) (payload : List ℕ) (s s' : SecureStream)
      (msgs : List (List ℕ))
      → send_with_meta p env t m payload s ≡ (s', msgs, none)
      → (meta : List ℕ) × (m ≡ ok meta)
        × (send_frame p env t meta payload (negsuc 0) s ≡ (s', msgs, none))
  meta_built env t (err e) payload s s' msgs h = absurd (ground arith)
  meta_built env t (ok meta) payload s s' msgs h = (meta, refl, h)

module _ (p : Primitives) (lawful : IsLawful p) where
  -- A UDP frame with an address (UDP_NEW, UDP_DATA or UDP_PROBE_RESP) that is sent without an error is
  -- one message, and a linked receiver that gets it returns an event with the same type, id and
  -- payload, with the part of the address that is sent, and with HasAddr set exactly if there was an
  -- address; the two stay linked.
  pub udp_arrives :
      (env : SendEnv) (t : ℕ) (gid : List ℕ) (target : Address) (payload : List ℕ)
      (s s' r : SecureStream) (msgs : List (List ℕ))
      → FillsBuffer env.fill
      → Linked s r
      → carries_address t ≡ true
      → IsArray 8 gid
      → IsAddress target
      → send_with_meta p env t (build_udp_meta gid target) payload s ≡ (s', msgs, none)
      → (wire : List ℕ) × (r' : SecureStream) × (msgs ≡ wire ∷ [])
        × (recv_event p (ok wire) r ≡ (
          r',
          ok (record {
            type = t;
            global_id = gid;
            address = on_wire target;
            has_addr = has_target target;
            payload = payload;
          }),
        ))
        × Linked s' r'
  udp_arrives env t gid target payload s s' r msgs fills link ht hg ha h =
      let (meta, built, sent) =
        meta_built p env t (build_udp_meta gid target) payload s s' msgs h in
      let (wire, one, got, link') =
        frame_arrives p lawful env t meta payload (negsuc 0) s s' r msgs fills link sent in
      let parsed = parse_udp_meta-build_udp_meta gid target meta hg ha built in
      let fr = frame_of s t meta payload in
      let r' = count_received s'.send wire r in
      let ev = event_of_udp s t gid meta payload (on_wire target) (has_target target) ht parsed.0 in
      (wire, r', one, got ∙ deliver_ok p r' fr _ ev, link')
