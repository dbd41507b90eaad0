-- ===== src/PacketConn.antt =====
-- packetconn.go: datagrams on a SecureStream. `openedMu` makes ensureOpen one step.
pub mod Opening
pub mod Datagrams
pub mod Quiet
pub mod Skips
pub mod Reads
pub mod Close
pub mod Interleaving
mod Tests
use sing_ewp.NetAddr.{ewp_to_net_addr, addr_to_ewp, NetAddr}
use sing_ewp.Crypto.{Primitives}
use sing_ewp.Frame.{
  padding_only, udp_probe_req, udp_data, udp_new, pong, udp_probe_resp, ping, udp_end,
}
use sing_ewp.Errors.{unexpected_frame, eof, Error, ok, Result, err, ◌>>=◌}
use sing_ewp.Address.{zero_address, Address}
use sing_ewp.SecureStream.{
  recv_event, close, send_udp_new, send_udp_end, Event, SendEnv, SecureStream, Sent, send_udp_data,
}
use sing_ewp.Prelude.{
  not, List, ◌||◌, some, true, take, Option, length, ◌&&◌, none, if◌then◌else◌, false, ℕ, Bool, ◌∷◌,
  bytes_eq, [], ◌==◌,
}

-- The fields; `pending_first` is nil for `none`. The underlying connection is nil or not.
pub record PacketConn : Type 0 where
  pub stream : SecureStream
  pub has_underlying : Bool
  pub global_id : List ℕ
  pub default_dst : Address
  pub is_server : Bool
  pub pending_first : Option (List ℕ)
  pub pending_first_src : Address
  pub opened : Bool
  pub closed : Bool

-- newClientPacketConn, where NewGlobalID gives `gid`
abbrev pub new_client_packet_conn : SecureStream → Bool → List ℕ → Address → PacketConn
new_client_packet_conn stream has_underlying gid dst = record {
  stream = stream;
  has_underlying = has_underlying;
  global_id = gid;
  default_dst = dst;
  is_server = false;
  pending_first = none;
  pending_first_src = zero_address;
  opened = false;
  closed = false;
}

-- The payload of a DecodedFrame, which is nil where it is empty: `append([]byte(nil), …)` of nothing.
abbrev pub nil_if_empty : List ℕ → Option (List ℕ)
nil_if_empty [] = none
nil_if_empty (b ∷ bs) = some (b ∷ bs)

-- newServerPacketConn, with the payload of an event
abbrev pub new_server_packet_conn : SecureStream → Bool → List ℕ → Address → List ℕ → PacketConn
new_server_packet_conn stream has_underlying gid dst initial = record {
  stream = stream;
  has_underlying = has_underlying;
  global_id = gid;
  default_dst = dst;
  is_server = true;
  pending_first = nil_if_empty initial;
  pending_first_src = dst;
  opened = true;
  closed = false;
}

-- The test at the head of WriteToAddress, which holds no mutex.
abbrev pub must_open : PacketConn → Bool
must_open c = not c.is_server && not c.opened

-- A write: the connection after it, the messages that the transport took, and the number of bytes
-- that is reported.
abbrev pub Written : Type 0
Written = PacketConn × List (List ℕ) × Result ℕ

-- The result of a send, with the number to report.
unfoldable pub report : PacketConn → ℕ → Sent → Written
report c n (s, msgs, none) = (record c { stream = s }, msgs, ok n)
report c n (s, msgs, some e) = (record c { stream = s }, msgs, err e)

module _ (p : Primitives) where
  -- ensureOpen
  unfoldable pub ensure_open :
      SendEnv → List ℕ → PacketConn → PacketConn × List (List ℕ) × Option Error
  ensure_open env payload c =
      if c.opened
      then (c, [], none)
      else (let (s, msgs, failure) =
            send_udp_new p env c.global_id c.default_dst payload c.stream in
          elim failure [
            | some e ↦ (record c { stream = s }, msgs, some e)
            | none ↦ (record c { stream = s; opened = true }, msgs, none)
          ])

  -- The branch of WriteToAddress that opens the session. `c` is the connection when the mutex is held.
  unfoldable pub write_opening : SendEnv → List ℕ → PacketConn → Written
  write_opening env b c =
      let (c', msgs, failure) = ensure_open env b c in
      elim failure [ some e ↦ (c', msgs, err e) | none ↦ (c', msgs, ok (length b)) ]

  -- The other branch.
  unfoldable pub write_data : SendEnv → List ℕ → Address → PacketConn → Written
  write_data env b target c =
      report c (length b) (send_udp_data p env c.global_id target b c.stream)

  -- WriteToAddress, with no other call between the test and the send.
  unfoldable pub write_to_address : SendEnv → List ℕ → Address → PacketConn → Written
  write_to_address env b target c =
      if must_open c then write_opening env b c else write_data env b target c

  -- WriteTo
  unfoldable pub write_to : SendEnv → List ℕ → NetAddr → PacketConn → Written
  write_to env b addr c = elim (addr_to_ewp addr) [
    | err e ↦ (c, [], err e)
    | ok target ↦ write_to_address env b target c
  ]

-- The frame types that ReadFrom skips.
abbrev pub is_skipped : ℕ → Bool
is_skipped t =
    t == ping || t == pong || t == padding_only || t == udp_probe_req || t == udp_probe_resp

-- What ReadFrom makes of an event: a datagram and its source, an end, or `none` to go on.
unfoldable pub datagram_of : PacketConn → Event → Option (Result (List ℕ × Option NetAddr))
datagram_of c ev =
    if ev.type == udp_data || ev.type == udp_new
    then (if not (bytes_eq ev.global_id c.global_id)
        then none
        else some
            (ok (ev.payload, ewp_to_net_addr (if ev.has_addr then ev.address else c.default_dst))))
    else if ev.type == udp_end
    then (if bytes_eq ev.global_id c.global_id then some (err eof) else none)
    else if is_skipped ev.type
    then none
    else some (err unexpected_frame)

-- `copy` into a slice of `n` bytes
abbrev pub fit : ℕ → Result (List ℕ × Option NetAddr) → Result (List ℕ × Option NetAddr)
fit n (ok (payload, src)) = ok (take n payload, src)
fit n (err e) = err e

-- A read: the connection after it, the messages that the transport has left, and the result.
abbrev pub Reading : Type 0
Reading = PacketConn × List (List ℕ) × Result (List ℕ × Option NetAddr)

module _ (p : Primitives) where
  -- The loop of ReadFrom. The transport has these messages, then its end, for which Recv never returns
  -- an event.
  unfoldable pub read_loop : ℕ → List (List ℕ) → PacketConn → Reading
  read_loop n [] c =
      let (s, r) = recv_event p (err eof) c.stream in
      (record c { stream = s }, [], r >>= λ ev. err unexpected_frame)
  read_loop n (m ∷ ms) c =
      let (s, r) = recv_event p (ok m) c.stream in
      let c' : PacketConn = record c { stream = s } in
      let again = read_loop n ms c' in
      elim r [
        | err e ↦ (c', if c.stream.closed then m ∷ ms else ms, err e)
        | ok ev ↦ elim (datagram_of c ev) [ some x ↦ (c', ms, fit n x) | none ↦ again ]
      ]

  -- ReadFrom, into a slice of `n` bytes
  unfoldable pub read_from : ℕ → List (List ℕ) → PacketConn → Reading
  read_from n msgs c = elim c.pending_first [
    | some first ↦ (
      record c { pending_first = none },
      msgs,
      ok (take n first, ewp_to_net_addr c.pending_first_src),
    )
    | none ↦ read_loop n msgs c
  ]

  -- Close, without the errors of the transport and the underlying connection: the messages that were
  -- sent. The first call sends UDP_END and closes the stream, and later calls do nothing.
  unfoldable pub close_conn : SendEnv → PacketConn → PacketConn × List (List ℕ)
  close_conn env c =
      if c.closed
      then (c, [])
      else (let (s, msgs, failure) =
            if c.opened && c.has_underlying
            then send_udp_end p env c.global_id c.stream
            else (c.stream, [], none) in
          (record c { stream = close s; closed = true }, msgs))
