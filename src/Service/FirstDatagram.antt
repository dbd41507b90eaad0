-- ===== src/Service/FirstDatagram.antt =====
-- The first datagram of a session on two fresh streams.
use sing_ewp.SecureStream.Delivery.{new_streams-Linked}
use sing_ewp.Frame.{udp_new}
use sing_ewp.Kdf.{SessionKeys}
use sing_ewp.Errors.{Result, ok}
use sing_ewp.NetAddr.{ewp_to_net_addr}
use sing_ewp.SecureStream.Total.{Works}
use sing_ewp.Address.{is_domain, Address}
use sing_ewp.SecureStream.{new_client_stream, SendEnv, new_server_stream}
use sing_ewp.PacketConn.Opening.{first_write_total, write_opening_inv, first_write}
use sing_ewp.Service.{Dispatch, new_packet_connection, dispatch}
use sing_ewp.SecureStream.Back.{back-Linked_meta}
use sing_ewp.PacketConn.{
  nil_if_empty, new_server_packet_conn, read_from, PacketConn, new_client_packet_conn,
  write_to_address,
}
use sing_ewp.SecureStream.Datagrams.{udp_arrives}
use sing_ewp.PacketConn.Datagrams.{IsSession}
use sing_ewp.Service.Session.{dispatch_first}
use sing_ewp.Crypto.{Primitives, IsLawful}
use sing_ewp.Address.Wire.{sendable, IsAddress, on_wire}
use sing_ewp.SecureStream.UdpMeta.{has_target}
use sing_ewp.Hello.{ClientHello, command_udp}
use sing_ewp.Crypto.Random.{FillsBuffer}
use sing_ewp.Bytes.{IsArray}
use sing_ewp.Prelude.{
  ◌≤◌, ◌∙◌, arith, ◌<◌, [], refl, length, List, take, Bool, ◌≡◌, true, none, sym, ◌∷◌, ℕ,
}

sendable-target :
    (a : Address) → sendable a ≡ true → (has_target a ≡ true) × (length a.domain ≤ 253)
unfolding sendable is_domain
sendable-target a h = (ground (arith, h), ground (arith, h))

module _ (p : Primitives) where
  -- The connection that the handler gets hands out its first datagram.
  pending_read :
      (k : ℕ) (c : PacketConn) (b : List ℕ)
      → 0 < length b
      → c.pending_first ≡ nil_if_empty b
      → read_from p k [] c ≡ (
        record c { pending_first = none },
        [],
        ok (take k b, ewp_to_net_addr c.pending_first_src),
      )
  unfolding read_from
  pending_read k c [] h e = absurd (omega arith)
  pending_read k c (x ∷ xs) h e = rw e refl

-- The two connections after the first datagram, which the service's handler reads from its own.
pub record IsFirstExchange (p : Primitives) (env : SendEnv) (b : List ℕ) (target : Address)
    (client : PacketConn) (user : List ℕ) (dst : Address) (dispatched : Result Dispatch)
    (client' server' : PacketConn) (wire : List ℕ) : Type 0 where
  pub written : write_to_address p env b target client ≡ (client', wire ∷ [], ok (length b))
  pub server : PacketConn
  pub handled :
      dispatched
      ≡ ok (new_packet_connection server (record { user_uuid = user; destination = on_wire dst }))
  pub read :
      (k : ℕ)
      → read_from p k [] server ≡ (server', [], ok (take k b, ewp_to_net_addr (on_wire dst)))
  pub session : IsSession client' server'
  pub empty : server'.pending_first ≡ none

module _ (p : Primitives) (lawful : IsLawful p) where
  -- The first datagram over linked fresh streams.
  pub first_exchange :
      (keys : SessionKeys) (gid : List ℕ) (dst target : Address) (env : SendEnv) (b : List ℕ)
      (underlying : Bool) (ch : ClientHello)
      → FillsBuffer env.fill
      → Works env
      → IsArray 8 gid
      → IsAddress dst
      → sendable dst ≡ true
      → 0 < length b
      → length b ≤ 60000
      → ch.command ≡ command_udp
      → ch.address ≡ on_wire dst
      → (wire : List ℕ) × (client' : PacketConn) × (server' : PacketConn) × IsFirstExchange p env b
          target
          (new_client_packet_conn (new_client_stream keys) true gid dst)
          ch.uuid
          dst
          (dispatch p underlying ch keys (ok wire))
          client'
          server'
          wire
  first_exchange keys gid dst target env b underlying ch fills works hg ha sends nonempty small udp
        request =
      let c = new_client_packet_conn (new_client_stream keys) true gid dst in
      let (links, back) = new_streams-Linked keys in
      let (has, short) = sendable-target dst sends in
      let (c', msgs, done) =
        first_write_total p lawful env b target c works refl refl hg ha short small in
      let opening = sym (first_write p env b target c refl) ∙ done in
      let (i, count) = write_opening_inv p env b c c' msgs (length b) refl opening in
      let (wire, r, one, got, link) =
        udp_arrives p lawful env udp_new gid dst b c.stream i.s' (new_server_stream keys) msgs fills
          links refl hg ha i.sent in
      let back' =
        back-Linked_meta p env udp_new _ b c.stream i.s' (new_server_stream keys) r msgs wire _ back
          i.sent got in
      let server = new_server_packet_conn r underlying gid (on_wire dst) b in
      (
        wire,
        c',
        record server { pending_first = none },
        record {
          written = rw (← one) done;
          server = server;
          handled =
              dispatch_first p underlying ch keys (ok wire) r _ udp got refl has ∙ rw request refl;
          read = λ k. pending_read p k server b nonempty refl;
          session = rw i.state (record {
            same_id = refl;
            id_size = hg;
            there = link;
            back = back';
            writable = refl;
            peer_writable = refl;
          });
          empty = refl;
        },
      )
