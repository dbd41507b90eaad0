-- ===== src/PacketConn/Interleaving/Outcome.antt =====
-- How one writer ends.
use sing_ewp.Address.{Address}
use sing_ewp.PacketConn.Opening.{opening_sent}
use sing_ewp.Prelude.Int.{negsuc, ℤ}
use sing_ewp.SecureStream.Delivery.{send_frame_inv}
use sing_ewp.Frame.{encode_frame_append, frame_header_size, udp_new, aead_tag_len, udp_data}
use sing_ewp.Crypto.{Primitives}
use sing_ewp.SecureStream.Datagrams.{meta_built}
use sing_ewp.SecureStream.UdpMeta.{build_udp_meta}
use sing_ewp.Errors.{Result, err, Error, ok}
use sing_ewp.SecureStream.{
  choose_pad, send_with_meta, send_udp_new, SendEnv, transmit, SecureStream, send_frame,
  send_udp_data,
}
use sing_ewp.PacketConn.{PacketConn, ensure_open, write_opening, Written, report, write_data}
use sing_ewp.Prelude.{
  none, true, ◌+◌, ℕ, List, ◌≡◌, refl, inr, arith, length, false, [], Option-cases, Bool-cases,
  some, inl, ◌∷◌, All,
}

-- A message with one frame of the type `t` of the session `gid`, as a send method makes it.
pub record IsFrame (p : Primitives) (t : ℕ) (gid wire : List ℕ) : Type 0 where
  pub env : SendEnv
  pub target : Address
  pub payload : List ℕ
  pub s : SecureStream
  pub s' : SecureStream
  pub frame : send_with_meta p env t (build_udp_meta gid target) payload s ≡ (s', wire ∷ [], none)

module _ (p : Primitives) where
  pub failed_frame :
      (env : SendEnv) (t : ℕ) (meta payload : List ℕ) (pad : ℤ) (s s' : SecureStream)
      (msgs : List (List ℕ)) (e : Error)
      → send_frame p env t meta payload pad s ≡ (s', msgs, some e)
      → msgs ≡ []
  unfolding send_frame transmit
  failed_frame env t meta payload pad s s' msgs e h =
      let raw_wire = frame_header_size + length meta + length payload + aead_tag_len in
      let pad' = choose_pad env s raw_wire pad in
      let r = encode_frame_append p env.fill [] s.send t meta payload pad' in
      elim (Option-cases r.2) [ inl q ↦ ground (arith, q, h) | inr (x, q) ↦ ground (arith, q, h) ]

  failed_send :
      (env : SendEnv) (t : ℕ) (m : Result (List ℕ)) (payload : List ℕ) (s s' : SecureStream)
      (msgs : List (List ℕ)) (e : Error)
      → send_with_meta p env t m payload s ≡ (s', msgs, some e)
      → msgs ≡ []
  failed_send env t (err x) payload s s' msgs e h = ground (arith, h)
  failed_send env t (ok meta) payload s s' msgs e h =
      failed_frame env t meta payload (negsuc 0) s s' msgs e h

  pub done_send :
      (env : SendEnv) (t : ℕ) (m : Result (List ℕ)) (payload : List ℕ) (s s' : SecureStream)
      (msgs : List (List ℕ))
      → send_with_meta p env t m payload s ≡ (s', msgs, none)
      → (wire : List ℕ) × (msgs ≡ wire ∷ [])
  done_send env t m payload s s' msgs h =
      let (meta, built, sent) = meta_built p env t m payload s s' msgs h in
      let i = send_frame_inv p env t meta payload (negsuc 0) s s' msgs sent in (i.wire, i.messages)

  pub open_already :
      (env : SendEnv) (b : List ℕ) (c : PacketConn)
      → c.opened ≡ true
      → write_opening p env b c ≡ (c, [], ok (length b))
  unfolding write_opening ensure_open
  open_already env b c h = rw h refl

  opening_failed :
      (env : SendEnv) (b : List ℕ) (c : PacketConn) (s : SecureStream) (msgs : List (List ℕ))
      (e : Error)
      → c.opened ≡ false
      → send_udp_new p env c.global_id c.default_dst b c.stream ≡ (s, msgs, some e)
      → write_opening p env b c ≡ (record c { stream = s }, msgs, err e)
  unfolding write_opening ensure_open
  opening_failed env b c s msgs e o h = ground (arith, o, h)

  -- The outcomes of a writer that takes the mutex: the session is open already, the send fails, or it
  -- opens the session.
  pub data Opening (c : PacketConn) (w : Written) : Type 0 where
    was_open : (n : ℕ) → c.opened ≡ true → w ≡ (c, [], ok n) → Opening c w
    failed :
        (s : SecureStream) (e : Error)
        → c.opened ≡ false
        → w ≡ (record c { stream = s }, [], err e)
        → Opening c w
    opens :
        (s : SecureStream) (wire : List ℕ) (n : ℕ)
        → c.opened ≡ false
        → IsFrame p udp_new c.global_id wire
        → w ≡ (record c { stream = s; opened = true }, wire ∷ [], ok n)
        → Opening c w

  pub write_opening-cases :
      (env : SendEnv) (b : List ℕ) (c : PacketConn) → Opening c (write_opening p env b c)
  write_opening-cases env b c = elim (Bool-cases c.opened) [
    | inl o ↦ was_open (length b) o (open_already env b c o)
    | inr o ↦
        let r = send_udp_new p env c.global_id c.default_dst b c.stream in
        let m = build_udp_meta c.global_id c.default_dst in
        elim (Option-cases r.2) [
          | inl q ↦
              let whole : r ≡ (r.0, r.1, none) = ground (arith, q) in
              let (wire, one) = done_send env udp_new m b c.stream r.0 r.1 whole in
              opens r.0 wire (length b) o
                (record {
                  env = env;
                  target = c.default_dst;
                  payload = b;
                  s = c.stream;
                  s' = r.0;
                  frame = rw (← one) whole;
                })
                (rw (← one) (opening_sent p env b c r.0 r.1 o whole))
          | inr (e, q) ↦
              let whole : r ≡ (r.0, r.1, some e) = ground (arith, q) in
              let nothing = failed_send env udp_new m b c.stream r.0 r.1 e whole in
              failed r.0 e o (rw (← nothing) (opening_failed env b c r.0 r.1 e o whole))
        ]
  ]

  data_frames :
      (env : SendEnv) (b : List ℕ) (target : Address) (gid : List ℕ) (s : SecureStream)
      → All (IsFrame p udp_data gid) (send_udp_data p env gid target b s).1
  data_frames env b target gid s =
      let r = send_udp_data p env gid target b s in
      let m = build_udp_meta gid target in
      elim (Option-cases r.2) [
        | inl q ↦
            let whole : r ≡ (r.0, r.1, none) = ground (arith, q) in
            let (wire, one) = done_send env udp_data m b s r.0 r.1 whole in
            rw one (
              record {
                env = env;
                target = target;
                payload = b;
                s = s;
                s' = r.0;
                frame = rw (← one) whole;
              },
              tt,
            )
        | inr (e, q) ↦
            let whole : r ≡ (r.0, r.1, some e) = ground (arith, q) in
            let none_sent = failed_send env udp_data m b s r.0 r.1 e whole in rw none_sent tt
      ]

  pub write_data-keeps :
      (env : SendEnv) (b : List ℕ) (target : Address) (c : PacketConn)
      → (s : SecureStream) × ((write_data p env b target c).0 ≡ record c { stream = s })
        × All (IsFrame p udp_data c.global_id) (write_data p env b target c).1
  unfolding write_data report
  write_data-keeps env b target c =
      let r = send_udp_data p env c.global_id target b c.stream in
      let frames = data_frames env b target c.global_id c.stream in
      elim (Option-cases r.2) [
        | inl q ↦
            let same : (write_data p env b target c).1 ≡ r.1 = ground (arith, q) in
            (r.0, ground (arith, q), rw same frames)
        | inr (e, q) ↦
            let same : (write_data p env b target c).1 ≡ r.1 = ground (arith, q) in
            (r.0, ground (arith, q), rw same frames)
      ]
