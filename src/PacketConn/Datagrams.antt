-- ===== src/PacketConn/Datagrams.antt =====
-- A datagram of one side of a session, at the other side.
-- The two connections of an open session: the ids, and the streams in both directions.
use sing_ewp.PacketConn.Opening.{send_with_meta_total}
use sing_ewp.SecureStream.Total.{Works}
use sing_ewp.SecureStream.Delivery.{Linked}
use sing_ewp.SecureStream.Datagrams.{udp_arrives}
use sing_ewp.Bytes.{IsArray}
use sing_ewp.Frame.{udp_data, valid}
use sing_ewp.Address.{Address}
use sing_ewp.SecureStream.Back.{back-Linked_meta}
use sing_ewp.NetAddr.{ewp_to_net_addr, NetAddr}
use sing_ewp.Address.Wire.{on_wire, wire, IsAddress}
use sing_ewp.Crypto.Random.{FillsBuffer}
use sing_ewp.Crypto.{IsLawful, Primitives}
use sing_ewp.SecureStream.{recv_event, SendEnv, SecureStream, send_udp_data, Event, Sent}
use sing_ewp.Prelude.{
  bytes_eq_refl, sym, List, none, [], some, take, ◌∙◌, if◌then◌else◌, arith, ◌∷◌, false, Option,
  refl, length, subst, ℕ, ◌≡◌, ◌≤◌,
}
use sing_ewp.SecureStream.UdpMeta.{has_target}
use sing_ewp.Errors.{ok, Result}
use sing_ewp.PacketConn.{
  report, datagram_of, must_open, write_to_address, PacketConn, fit, read_from, write_data,
  read_loop,
}

pub record IsSession (c d : PacketConn) : Type 0 where
  pub same_id : c.global_id ≡ d.global_id
  pub id_size : IsArray 8 c.global_id
  pub there : Linked c.stream d.stream
  pub back : Linked d.stream c.stream
  pub writable : must_open c ≡ false
  pub peer_writable : must_open d ≡ false

pub IsSession-sym : (c d : PacketConn) → IsSession c d → IsSession d c
IsSession-sym c d w = record {
  same_id = sym w.same_id;
  id_size = subst (IsArray 8) w.same_id w.id_size;
  there = w.back;
  back = w.there;
  writable = w.peer_writable;
  peer_writable = w.writable;
}

-- The event of a datagram that was sent.
abbrev pub datagram : ℕ → List ℕ → Address → List ℕ → Event
datagram t gid target b = record {
  type = t;
  global_id = gid;
  address = on_wire target;
  has_addr = has_target target;
  payload = b;
}

-- The source that ReadFrom reports for it.
abbrev pub source : PacketConn → Address → Option NetAddr
source d target = ewp_to_net_addr (if has_target target then on_wire target else d.default_dst)

pub datagram_of-datagram :
    (d : PacketConn) (target : Address) (b : List ℕ)
    → datagram_of d (datagram udp_data d.global_id target b) ≡ some (ok (b, source d target))
unfolding datagram_of
datagram_of-datagram d target b = ground (arith, bytes_eq_refl d.global_id)

module _ (p : Primitives) where
  -- A read that takes its first message.
  pub read_first :
      (n : ℕ) (m : List ℕ) (ms : List (List ℕ)) (d : PacketConn) (s : SecureStream) (ev : Event)
      (x : Result (List ℕ × Option NetAddr))
      → recv_event p (ok m) d.stream ≡ (s, ok ev)
      → datagram_of d ev ≡ some x
      → read_loop p n (m ∷ ms) d ≡ (record d { stream = s }, ms, fit n x)
  unfolding read_loop
  read_first n m ms d s ev x h g = ground (arith, h, g)

  pub read_loop_lem :
      (n : ℕ) (msgs : List (List ℕ)) (d : PacketConn)
      → d.pending_first ≡ none
      → read_from p n msgs d ≡ read_loop p n msgs d
  unfolding read_from
  read_loop_lem n msgs d h = rw h refl

  report_ok :
      (c c' : PacketConn) (k n : ℕ) (r : Sent) (msgs : List (List ℕ))
      → report c k r ≡ (c', msgs, ok n)
      → (s : SecureStream) × (r ≡ (s, msgs, none)) × (c' ≡ record c { stream = s }) × (n ≡ k)
  unfolding report
  report_ok c c' k n (s, ms, none) msgs h =
      (s, ground (arith, h), ground (arith, h), ground (arith, h))
  report_ok c c' k n (s, ms, some e) msgs h = absurd (ground (arith, h))

  pub write_data_inv :
      (env : SendEnv) (b : List ℕ) (target : Address) (c c' : PacketConn) (msgs : List (List ℕ))
      (n : ℕ)
      → must_open c ≡ false
      → write_to_address p env b target c ≡ (c', msgs, ok n)
      → (s : SecureStream) × (send_udp_data p env c.global_id target b c.stream ≡ (s, msgs, none))
        × (c' ≡ record c { stream = s })
        × (n ≡ length b)
  unfolding write_to_address write_data
  write_data_inv env b target c c' msgs n o h =
      report_ok c c' (length b) n (send_udp_data p env c.global_id target b c.stream) msgs
        (ground (arith, o, h))

module _ (p : Primitives) (lawful : IsLawful p) where
  -- A datagram on an open session. A write that returns no error has sent one message and reports all
  -- its bytes; the other side's next read takes that message and returns as many of the bytes as fit,
  -- with the part of the target that is sent as their source, or the session's default destination
  -- where there is no target. The session stays open in both directions.
  pub datagram_arrives :
      (env : SendEnv) (b : List ℕ) (target : Address) (c c' d : PacketConn) (msgs : List (List ℕ))
      (n : ℕ)
      → FillsBuffer env.fill
      → IsSession c d
      → IsAddress target
      → d.pending_first ≡ none
      → write_to_address p env b target c ≡ (c', msgs, ok n)
      → (wire : List ℕ) × (d' : PacketConn) × (msgs ≡ wire ∷ [])
        × ((k : ℕ) (rest : List (List ℕ))
            → read_from p k (wire ∷ rest) d ≡ (d', rest, ok (take k b, source d target)))
        × IsSession c' d'
        × (n ≡ length b)
  datagram_arrives env b target c c' d msgs n fills w ha none_first h =
      let (s, sent, moved, count) = write_data_inv p env b target c c' msgs n w.writable h in
      let (wire, r, one, got, link) =
        udp_arrives p lawful env udp_data c.global_id target b c.stream s d.stream msgs fills
          w.there refl w.id_size ha sent in
      let back =
        back-Linked_meta p env udp_data _ b c.stream s d.stream r msgs wire _ w.back sent got in
      let got' : recv_event p (ok wire) d.stream
          ≡ (r, ok (datagram udp_data d.global_id target b)) =
        rw (← w.same_id) got in
      (
        wire,
        record d { stream = r },
        one,
        λ k rest.
            read_loop_lem p k (wire ∷ rest) d none_first
            ∙ read_first p k wire rest d r _ _ got' (datagram_of-datagram d target b),
        rw moved (record {
          same_id = w.same_id;
          id_size = w.id_size;
          there = link;
          back = back;
          writable = w.writable;
          peer_writable = w.peer_writable;
        }),
        count,
      )

  data_sent :
      (env : SendEnv) (b : List ℕ) (target : Address) (c : PacketConn) (s : SecureStream)
      (msgs : List (List ℕ))
      → must_open c ≡ false
      → send_udp_data p env c.global_id target b c.stream ≡ (s, msgs, none)
      → write_to_address p env b target c ≡ (record c { stream = s }, msgs, ok (length b))
  unfolding write_to_address write_data report
  data_sent env b target c s msgs o h = rw (o, h) refl

  -- With a working crypto/rand and transport and an open stream, a write of at most 60000 bytes on an
  -- open session is sent, if the name of its target is not too long.
  pub write_data_total :
      (env : SendEnv) (b : List ℕ) (target : Address) (c : PacketConn)
      → Works env
      → c.stream.closed ≡ false
      → must_open c ≡ false
      → IsArray 8 c.global_id
      → IsAddress target
      → length target.domain ≤ 253
      → length b ≤ 60000
      → (c' : PacketConn) × (msgs : List (List ℕ)) × (write_to_address p env b target c
          ≡ (c', msgs, ok (length b)))
  write_data_total env b target c w o open_now hg ha short small =
      let (s, msgs, sent) =
        send_with_meta_total p lawful env udp_data c.global_id target b c.stream w o
          (unfold valid in refl) hg ha short small in
      (record c { stream = s }, msgs, data_sent env b target c s msgs open_now sent)
