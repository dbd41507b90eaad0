-- ===== src/PacketConn/Interleaving/Lost.antt =====
-- Two first writes at once.
use sing_ewp.SecureStream.Datagrams.{udp_arrives}
use sing_ewp.Bytes.{IsArray}
use sing_ewp.SecureStream.UdpMeta.{has_target}
use sing_ewp.SecureStream.Delivery.{Linked}
use sing_ewp.Crypto.Random.{FillsBuffer}
use sing_ewp.Address.Wire.{on_wire, IsAddress}
use sing_ewp.PacketConn.Interleaving.Outcome.{open_already}
use sing_ewp.Errors.{ok}
use sing_ewp.Crypto.{Primitives, IsLawful}
use sing_ewp.PacketConn.Opening.{write_opening_inv}
use sing_ewp.Frame.{udp_new}
use sing_ewp.Address.{Address}
use sing_ewp.PacketConn.Interleaving.{
  Reach, System, initial, returned, call, open_session, then_step, at_start, ready, written_by,
  set_pc, opening, Step, after_test, Pc,
}
use sing_ewp.PacketConn.{write_opening, must_open, PacketConn}
use sing_ewp.Prelude.{ℕ, ◌≡◌, arith, List, length, true, ◌∷◌, [], ap, refl, append-nil, ◌∙◌}
use sing_ewp.SecureStream.{SendEnv, recv_event, SecureStream}

module _ (p : Primitives) (lawful : IsLawful p) where
  -- Two writers of a fresh client whose test comes before either takes the mutex: if the first one's
  -- UDP_NEW is sent, both writes return the size of their datagram without an error, and the transport
  -- has got one message. A linked receiver takes it for a UDP_NEW with the first datagram; the second
  -- is not sent.
  pub second_first_write_lost :
      (env : SendEnv) (b1 b2 : List ℕ) (target1 target2 : Address) (c c' : PacketConn)
      (r : SecureStream) (msgs : List (List ℕ)) (n : ℕ)
      → FillsBuffer env.fill
      → Linked c.stream r
      → must_open c ≡ true
      → IsArray 8 c.global_id
      → IsAddress c.default_dst
      → write_opening p env b1 c ≡ (c', msgs, ok n)
      → (t : System) × (wire : List ℕ) × (r' : SecureStream) × Reach p (initial c) t
        × (t.pc 0 ≡ returned (ok (length b1)))
        × (t.pc 1 ≡ returned (ok (length b2)))
        × (t.sent ≡ wire ∷ [])
        × (t.conn ≡ c')
        × (recv_event p (ok wire) r ≡ (
          r',
          ok (record {
            type = udp_new;
            global_id = c.global_id;
            address = on_wire c.default_dst;
            has_addr = has_target c.default_dst;
            payload = b1;
          }),
        ))
  second_first_write_lost env b1 b2 target1 target2 c c' r msgs n fills link h hg ha w =
      let (i, count) = write_opening_inv p env b1 c c' msgs n (ground (arith, h)) w in
      let (wire, r', one, got, link') =
        udp_arrives p lawful env udp_new c.global_id c.default_dst b1 c.stream i.s' r msgs fills
          link refl hg ha i.sent in
      let tested : (b : List ℕ) (target : Address) → opening b ≡ after_test c b target =
        λ b target. rw h refl in
      let s1 : System = record (initial c) { pc = set_pc 0 (opening b1) (λ i. ready) } in
      let s2 : System = record s1 { pc = set_pc 1 (opening b2) s1.pc } in
      let s3 = written_by 0 (c', msgs, ok n) s2 in
      let s4 = written_by 1 (c', [], ok (length b2)) s3 in
      let open_now : c'.opened ≡ true = ap (λ (x : PacketConn). x.opened) i.state in
      let step1 : Step p (initial c) s1 = call 0 b1 target1 refl (
        ap (λ (x : Pc). record (initial c) { pc = set_pc 0 x (λ i. ready) }) (tested b1 target1)) in
      let step2 : Step p s1 s2 =
        call 1 b2 target2 refl
          (ap (λ (x : Pc). record s1 { pc = set_pc 1 x s1.pc }) (tested b2 target2)) in
      let step3 : Step p s2 s3 = open_session 0 env b1 refl (rw w refl) in
      let step4 : Step p s3 s4 =
        open_session 1 env b2 refl (rw (open_already p env b2 c' open_now) refl) in
      (
        s4,
        wire,
        r',
        then_step (then_step (then_step (then_step at_start step1) step2) step3) step4,
        ap (λ k. returned (ok k)) count,
        refl,
        append-nil msgs ∙ one,
        refl,
        got,
      )
