-- ===== src/PacketConn/Skips.antt =====
-- Quiet frames in front of a read.
use sing_ewp.PacketConn.Quiet.{
  quiet_done, foreign_ignored, foreign_end_ignored, probe_ignored, Quiet, id_event, control_ignored,
  control_event, quiet_control, quiet_probe_req, quiet_probe_resp, quiet_foreign, quiet_foreign_end,
  quiet_foreign_new,
}
use sing_ewp.Errors.{ok}
use sing_ewp.SecureStream.Back.{back-Linked}
use sing_ewp.Crypto.Random.{FillsBuffer}
use sing_ewp.PacketConn.Datagrams.{datagram}
use sing_ewp.SecureStream.UdpMeta.RoundTrip.{parse_udp_meta-build_udp_meta}
use sing_ewp.SecureStream.UdpMeta.{build_udp_meta, has_target}
use sing_ewp.SecureStream.Datagrams.{deliver_ok, event_of_udp, meta_built}
use sing_ewp.Address.Wire.{IsAddress, on_wire, wire}
use sing_ewp.Crypto.{IsLawful, Primitives}
use sing_ewp.SecureStream.Delivery.{Linked, frame_arrives, frame_of, count_received}
use sing_ewp.Prelude.Int.{ℤ, negsuc}
use sing_ewp.Frame.{udp_probe_req, udp_end, udp_probe_resp, udp_data, udp_new}
use sing_ewp.Prelude.{
  ◌++◌, ap, false, arith, append_assoc, none, true, ◌≡◌, ◌∙◌, ◌∷◌, ℕ, List, [], refl,
}
use sing_ewp.PacketConn.{read_loop, PacketConn, datagram_of}
use sing_ewp.Address.{Address, zero_address}
use sing_ewp.SecureStream.{
  send_with_meta, carries_address, send_frame, recv_event, SendEnv, event_of, Event, SecureStream,
}
use sing_ewp.Bytes.{IsArray}

module _ (p : Primitives) where
  skip_first :
      (k : ℕ) (m : List ℕ) (ms : List (List ℕ)) (d : PacketConn) (s : SecureStream) (ev : Event)
      → recv_event p (ok m) d.stream ≡ (s, ok ev)
      → datagram_of d ev ≡ none
      → read_loop p k (m ∷ ms) d ≡ read_loop p k ms (record d { stream = s })
  unfolding read_loop
  skip_first k m ms d s ev h g = ground (arith, h, g)

  -- Messages that are read past: the loop goes on with the stream `r`, linked to the sender's.
  pub record Ignored (d : PacketConn) (s' : SecureStream) (msgs : List (List ℕ)) : Type 0 where
    pub r : SecureStream
    pub past :
        (k : ℕ) (rest : List (List ℕ))
        → read_loop p k (msgs ++ rest) d ≡ read_loop p k rest (record d { stream = r })
    pub link : Linked s' r
    pub back : Linked r s'

  Ignored-append :
      (d : PacketConn) (s' s'' : SecureStream) (msgs more : List (List ℕ))
      → Ignored d s' msgs
      → ((e : PacketConn)
          → e.global_id ≡ d.global_id
          → Linked s' e.stream
          → Linked e.stream s'
          → Ignored e s'' more)
      → Ignored d s'' (msgs ++ more)
  Ignored-append d s' s'' msgs more first next =
      let after = next (record d { stream = first.r }) refl first.link first.back in
      record {
        r = after.r;
        past = λ k rest.
            ap (λ x. read_loop p k x d) (append_assoc msgs more rest)
            ∙ first.past k (more ++ rest)
            ∙ after.past k rest;
        link = after.link;
        back = after.back;
      }

module _ (p : Primitives) (lawful : IsLawful p) where
  skip_frame :
      (env : SendEnv) (t : ℕ) (meta payload : List ℕ) (pad : ℤ) (s s' : SecureStream)
      (d : PacketConn) (msgs : List (List ℕ)) (ev : Event)
      → FillsBuffer env.fill
      → Linked s d.stream
      → Linked d.stream s
      → send_frame p env t meta payload pad s ≡ (s', msgs, none)
      → event_of (frame_of s t meta payload) ≡ ok ev
      → datagram_of d ev ≡ none
      → Ignored p d s' msgs
  skip_frame env t meta payload pad s s' d msgs ev fills link back h e g =
      let (wire, one, got, link') =
        frame_arrives p lawful env t meta payload pad s s' d.stream msgs fills link h in
      let r = count_received s'.send wire d.stream in
      let got' = got ∙ deliver_ok p r (frame_of s t meta payload) ev e in
      record {
        r = r;
        past = λ k rest. rw one (skip_first p k wire rest d r ev got' g);
        link = link';
        back = back-Linked p env t meta payload pad s s' d.stream r msgs wire ev back h got';
      }

  -- A frame with an address.
  skip_udp :
      (env : SendEnv) (t : ℕ) (id : List ℕ) (target : Address) (b : List ℕ) (s s' : SecureStream)
      (d : PacketConn) (msgs : List (List ℕ))
      → FillsBuffer env.fill
      → IsArray 8 id
      → IsAddress target
      → Linked s d.stream
      → Linked d.stream s
      → carries_address t ≡ true
      → send_with_meta p env t (build_udp_meta id target) b s ≡ (s', msgs, none)
      → datagram_of d (datagram t id target b) ≡ none
      → Ignored p d s' msgs
  skip_udp env t id target b s s' d msgs fills hi ha link back ht h g =
      let (meta, built, sent) = meta_built p env t (build_udp_meta id target) b s s' msgs h in
      let parsed = parse_udp_meta-build_udp_meta id target meta hi ha built in
      skip_frame env t meta b (negsuc 0) s s' d msgs _ fills link back sent
        (event_of_udp s t id meta b (on_wire target) (has_target target) ht parsed.0) g

  -- Each frame that is quiet is read past.
  pub Quiet-Ignored :
      (gid : List ℕ) {s s' : SecureStream} {msgs : List (List ℕ)}
      → Quiet p gid s msgs s'
      → (d : PacketConn) → d.global_id ≡ gid
      → Linked s d.stream
      → Linked d.stream s
      → Ignored p d s' msgs
  Quiet-Ignored gid quiet_done d own link back = record {
    r = d.stream;
    past = λ k rest. refl;
    link = link;
    back = back;
  }
  Quiet-Ignored gid (quiet_control {s} {s'} {s''} {msgs} {more} env t payload pad fills ht h next) d
        own link back =
      let first =
        skip_frame env t [] payload pad s s' d msgs _ fills link back h
          (control_event s t payload ht) (control_ignored d t payload s ht) in
      Ignored-append p d s' s'' msgs more first (λ e same. Quiet-Ignored gid next e (same ∙ own))
  Quiet-Ignored gid (quiet_probe_req {s} {s'} {s''} {msgs} {more} env id fills hi h next) d own link
        back =
      let first =
        skip_frame env udp_probe_req id [] (negsuc 0) s s' d msgs _ fills link back h
          (id_event s udp_probe_req id refl hi)
          (probe_ignored d udp_probe_req id zero_address false [] refl) in
      Ignored-append p d s' s'' msgs more first (λ e same. Quiet-Ignored gid next e (same ∙ own))
  Quiet-Ignored gid (quiet_probe_resp {s} {s'} {s''} {msgs} {more} env id a fills hi ha h next) d
        own link back =
      let first =
        skip_udp env udp_probe_resp id a [] s s' d msgs fills hi ha link back refl h
          (probe_ignored d udp_probe_resp id (on_wire a) (has_target a) [] refl) in
      Ignored-append p d s' s'' msgs more first (λ e same. Quiet-Ignored gid next e (same ∙ own))
  Quiet-Ignored gid (quiet_foreign {s} {s'} {s''} {msgs} {more} env id a b fills hi ha other h next)
        d own link back =
      let first =
        skip_udp env udp_data id a b s s' d msgs fills hi ha link back refl h
          (foreign_ignored d udp_data id (on_wire a) (has_target a) b refl (rw own other)) in
      Ignored-append p d s' s'' msgs more first (λ e same. Quiet-Ignored gid next e (same ∙ own))
  Quiet-Ignored gid
        (quiet_foreign_new {s} {s'} {s''} {msgs} {more} env id a b fills hi ha other h next) d own
        link back =
      let first =
        skip_udp env udp_new id a b s s' d msgs fills hi ha link back refl h
          (foreign_ignored d udp_new id (on_wire a) (has_target a) b refl (rw own other)) in
      Ignored-append p d s' s'' msgs more first (λ e same. Quiet-Ignored gid next e (same ∙ own))
  Quiet-Ignored gid (quiet_foreign_end {s} {s'} {s''} {msgs} {more} env id fills hi other h next) d
        own link back =
      let first =
        skip_frame env udp_end id [] (negsuc 0) s s' d msgs _ fills link back h
          (id_event s udp_end id refl hi) (foreign_end_ignored d id (rw own other)) in
      Ignored-append p d s' s'' msgs more first (λ e same. Quiet-Ignored gid next e (same ∙ own))
