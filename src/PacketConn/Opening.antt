-- ===== src/PacketConn/Opening.antt =====
-- The first write of a client, which opens the session.
use sing_ewp.SecureStream.UdpMeta.{has_target, build_udp_meta}
use sing_ewp.Address.{Address}
use sing_ewp.Prelude.Int.{negsuc}
use sing_ewp.SecureStream.UdpMeta.RoundTrip.{parse_udp_meta-build_udp_meta, build_udp_meta_ok_iff}
use sing_ewp.Errors.{ok, Result}
use sing_ewp.SecureStream.Total.{send_frame_total, Works}
use sing_ewp.Bytes.{IsArray}
use sing_ewp.PacketConn.{must_open, PacketConn, write_opening, write_to_address, ensure_open}
use sing_ewp.SecureStream.Delivery.{Linked}
use sing_ewp.Frame.{udp_new, valid}
use sing_ewp.Crypto.Random.{FillsBuffer}
use sing_ewp.Crypto.{IsLawful, Primitives}
use sing_ewp.SecureStream.{
  SendEnv, send_frame, send_with_meta, recv_event, SecureStream, send_udp_new,
}
use sing_ewp.Prelude.{
  ◌∙◌, ap, sym, false, arith, ◌≤◌, length, refl, Option-cases, ◌≡◌, subst, true, List, [], inl, ◌∷◌,
  none, inr, ℕ,
}
use sing_ewp.SecureStream.Datagrams.{udp_arrives}
use sing_ewp.Address.Wire.{on_wire, IsAddress, wire}

pub record Opened (p : Primitives) (env : SendEnv) (b : List ℕ) (c c' : PacketConn)
    (msgs : List (List ℕ)) : Type 0 where
  pub s' : SecureStream
  pub sent : send_udp_new p env c.global_id c.default_dst b c.stream ≡ (s', msgs, none)
  pub state : c' ≡ record c { stream = s'; opened = true }

module _ (p : Primitives) where
  ensure_open_inv :
      (env : SendEnv) (b : List ℕ) (c c' : PacketConn) (msgs : List (List ℕ))
      → c.opened ≡ false
      → ensure_open p env b c ≡ (c', msgs, none)
      → Opened p env b c c' msgs
  unfolding ensure_open
  ensure_open_inv env b c c' msgs o h =
      let r = send_udp_new p env c.global_id c.default_dst b c.stream in
      elim (Option-cases r.2) [
        | inr (e, q) ↦ absurd (ground (arith, o, q, h))
        | inl q ↦ record {
          s' = r.0;
          sent = ground (arith, o, q, h);
          state = ground (arith, o, q, h);
        }
      ]

  -- In a fresh client the write is the opening, whatever its target.
  pub first_write :
      (env : SendEnv) (b : List ℕ) (target : Address) (c : PacketConn)
      → must_open c ≡ true
      → write_to_address p env b target c ≡ write_opening p env b c
  unfolding write_to_address
  first_write env b target c h = rw h

  pub write_opening_inv :
      (env : SendEnv) (b : List ℕ) (c c' : PacketConn) (msgs : List (List ℕ)) (n : ℕ)
      → c.opened ≡ false
      → write_opening p env b c ≡ (c', msgs, ok n)
      → Opened p env b c c' msgs × (n ≡ length b)
  unfolding write_opening
  write_opening_inv env b c c' msgs n o h =
      let r = ensure_open p env b c in
      elim (Option-cases r.2) [
        | inr (e, q) ↦ absurd (ground (arith, q, h))
        | inl q ↦ (ensure_open_inv env b c c' msgs o (ground (arith, q, h)), ground (arith, q, h))
      ]

  pub opening_sent :
      (env : SendEnv) (b : List ℕ) (c : PacketConn) (s' : SecureStream) (msgs : List (List ℕ))
      → c.opened ≡ false
      → send_udp_new p env c.global_id c.default_dst b c.stream ≡ (s', msgs, none)
      → write_opening p env b c ≡ (record c { stream = s'; opened = true }, msgs, ok (length b))
  unfolding write_opening ensure_open
  opening_sent env b c s' msgs o h = ground (arith, o, h)

  must_open-closed : (c : PacketConn) → must_open c ≡ true → c.opened ≡ false
  must_open-closed c h = ground (arith, h)

module _ (p : Primitives) (lawful : IsLawful p) where
  -- The first write of a client that returns no error is one UDP_NEW message. A linked receiver that
  -- gets it returns an event with the session's id and the bytes, and with the session's default
  -- destination as its address: the target of the write is not sent. The session is open after it.
  pub first_write_to_default :
      (env : SendEnv) (b : List ℕ) (target : Address) (c c' : PacketConn) (r : SecureStream)
      (msgs : List (List ℕ)) (n : ℕ)
      → FillsBuffer env.fill
      → Linked c.stream r
      → must_open c ≡ true
      → IsArray 8 c.global_id
      → IsAddress c.default_dst
      → write_to_address p env b target c ≡ (c', msgs, ok n)
      → (wire : List ℕ) × (r' : SecureStream) × (msgs ≡ wire ∷ [])
        × (recv_event p (ok wire) r ≡ (
          r',
          ok (record {
            type = udp_new;
            global_id = c.global_id;
            address = on_wire c.default_dst;
            has_addr = has_target c.default_dst;
            payload = b;
          }),
        ))
        × Linked c'.stream r'
        × (c'.opened ≡ true)
        × (n ≡ length b)
  first_write_to_default env b target c c' r msgs n fills link fresh hg ha h =
      let opening : write_opening p env b c ≡ (c', msgs, ok n) =
        sym (first_write p env b target c fresh) ∙ h in
      let i = write_opening_inv p env b c c' msgs n (must_open-closed p c fresh) opening in
      let w = i.0 in
      let (wire, r', one, got, link') =
        udp_arrives p lawful env udp_new c.global_id c.default_dst b c.stream w.s' r msgs fills link
          refl hg ha w.sent in
      (
        wire,
        r',
        one,
        got,
        subst (λ x. Linked x r') (sym (ap (λ (x : PacketConn). x.stream) w.state)) link',
        ap (λ (x : PacketConn). x.opened) w.state,
        i.1,
      )

  -- A UDP frame of at most 60000 bytes to an address whose name is not too long.
  pub send_with_meta_total :
      (env : SendEnv) (t : ℕ) (gid : List ℕ) (a : Address) (b : List ℕ) (s : SecureStream)
      → Works env
      → s.closed ≡ false
      → valid t ≡ true
      → IsArray 8 gid
      → IsAddress a
      → length a.domain ≤ 253
      → length b ≤ 60000
      → (s' : SecureStream) × (msgs : List (List ℕ)) × (send_with_meta p env t
            (build_udp_meta gid a)
            b
            s
          ≡ (s', msgs, none))
  send_with_meta_total env t gid a b s w o ht hg ha short small =
      let (meta, built) = (build_udp_meta_ok_iff gid a hg ha).1 short in
      let size = parse_udp_meta-build_udp_meta gid a meta hg ha built in
      let r = send_frame p env t meta b (negsuc 0) s in
      let total =
        send_frame_total p env t meta b s w o ht (omega (arith, size)) (omega (arith, size)) in
      let done : r ≡ (r.0, r.1, none) = ground (arith, total) in
      (r.0, r.1, ap (λ (m : Result (List ℕ)). send_with_meta p env t m b s) built ∙ done)

  -- With a working crypto/rand and transport and an open stream, the first write of at most 60000
  -- bytes is sent, if the name of the default destination is not too long.
  pub first_write_total :
      (env : SendEnv) (b : List ℕ) (target : Address) (c : PacketConn)
      → Works env
      → c.stream.closed ≡ false
      → must_open c ≡ true
      → IsArray 8 c.global_id
      → IsAddress c.default_dst
      → length c.default_dst.domain ≤ 253
      → length b ≤ 60000
      → (c' : PacketConn) × (msgs : List (List ℕ)) × (write_to_address p env b target c
          ≡ (c', msgs, ok (length b)))
  first_write_total env b target c w o fresh hg ha short small =
      let (s, msgs, sent) =
        send_with_meta_total env udp_new c.global_id c.default_dst b c.stream w o
          (unfold valid in refl) hg ha short small in
      (
        record c { stream = s; opened = true },
        msgs,
        first_write p env b target c fresh
            ∙ opening_sent p env b c s msgs (must_open-closed p c fresh) sent,
      )
