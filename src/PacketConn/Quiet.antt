-- ===== src/PacketConn/Quiet.antt =====
-- The frames that ReadFrom skips.
use sing_ewp.Errors.{ok}
use sing_ewp.Crypto.Random.{FillsBuffer}
use sing_ewp.Address.Wire.{IsAddress}
use sing_ewp.Crypto.{Primitives}
use sing_ewp.SecureStream.Delivery.{frame_of}
use sing_ewp.Prelude.Int.{ℤ}
use sing_ewp.Frame.{
  ping, padding_only, pong, udp_probe_req, udp_end, udp_probe_resp, udp_data, udp_new,
}
use sing_ewp.Prelude.{
  take, ◌++◌, false, arith, bytes_eq, none, true, ◌≡◌, ℕ, ◌==◌, List, Bool, [], ◌||◌, append-nil,
  take-append,
}
use sing_ewp.PacketConn.{PacketConn, datagram_of}
use sing_ewp.Address.{Address, zero_address}
use sing_ewp.SecureStream.{
  send_frame, SendEnv, event_of, bare_event, carries_id, send_probe_req, send_udp_end,
  send_udp_data, send_probe_resp, SecureStream, send_udp_new,
}
use sing_ewp.Bytes.{IsArray}

-- The frame types without a meta that ReadFrom skips.
abbrev pub is_control : ℕ → Bool
is_control t = t == ping || t == pong || t == padding_only

-- Frames that a sender puts on the stream of the session `gid` and that are no datagrams of it, with
-- the messages that they are: cover traffic, pings, pongs, probes, and UDP_NEW, UDP_DATA and UDP_END of
-- other sessions.
pub data Quiet (p : Primitives) (gid : List ℕ)
    : SecureStream → List (List ℕ) → SecureStream → Type 0 where
  quiet_done : {s : SecureStream} → Quiet p gid s [] s
  quiet_control :
      {s s' s'' : SecureStream} {msgs more : List (List ℕ)} (env : SendEnv) (t : ℕ)
      (payload : List ℕ) (pad : ℤ)
      → FillsBuffer env.fill
      → is_control t ≡ true
      → send_frame p env t [] payload pad s ≡ (s', msgs, none)
      → Quiet p gid s' more s''
      → Quiet p gid s (msgs ++ more) s''
  quiet_probe_req :
      {s s' s'' : SecureStream} {msgs more : List (List ℕ)} (env : SendEnv) (id : List ℕ)
      → FillsBuffer env.fill
      → IsArray 8 id
      → send_probe_req p env id s ≡ (s', msgs, none)
      → Quiet p gid s' more s''
      → Quiet p gid s (msgs ++ more) s''
  quiet_probe_resp :
      {s s' s'' : SecureStream} {msgs more : List (List ℕ)} (env : SendEnv) (id : List ℕ)
      (observed : Address)
      → FillsBuffer env.fill
      → IsArray 8 id
      → IsAddress observed
      → send_probe_resp p env id observed s ≡ (s', msgs, none)
      → Quiet p gid s' more s''
      → Quiet p gid s (msgs ++ more) s''
  quiet_foreign :
      {s s' s'' : SecureStream} {msgs more : List (List ℕ)} (env : SendEnv) (id : List ℕ)
      (target : Address) (b : List ℕ)
      → FillsBuffer env.fill
      → IsArray 8 id
      → IsAddress target
      → bytes_eq id gid ≡ false
      → send_udp_data p env id target b s ≡ (s', msgs, none)
      → Quiet p gid s' more s''
      → Quiet p gid s (msgs ++ more) s''
  quiet_foreign_new :
      {s s' s'' : SecureStream} {msgs more : List (List ℕ)} (env : SendEnv) (id : List ℕ)
      (target : Address) (b : List ℕ)
      → FillsBuffer env.fill
      → IsArray 8 id
      → IsAddress target
      → bytes_eq id gid ≡ false
      → send_udp_new p env id target b s ≡ (s', msgs, none)
      → Quiet p gid s' more s''
      → Quiet p gid s (msgs ++ more) s''
  quiet_foreign_end :
      {s s' s'' : SecureStream} {msgs more : List (List ℕ)} (env : SendEnv) (id : List ℕ)
      → FillsBuffer env.fill
      → IsArray 8 id
      → bytes_eq id gid ≡ false
      → send_udp_end p env id s ≡ (s', msgs, none)
      → Quiet p gid s' more s''
      → Quiet p gid s (msgs ++ more) s''

-- A frame that has no meta.
pub control_event :
    (s : SecureStream) (t : ℕ) (payload : List ℕ)
    → is_control t ≡ true
    → event_of (frame_of s t [] payload) ≡ ok (bare_event (frame_of s t [] payload))
unfolding event_of
control_event s t payload h = ground (arith, h)

-- A frame whose meta is an id.
pub id_event :
    (s : SecureStream) (t : ℕ) (id : List ℕ)
    → carries_id t ≡ true
    → IsArray 8 id
    → event_of (frame_of s t id [])
      ≡ ok (record (bare_event (frame_of s t id [])) { global_id = id })
unfolding event_of
id_event s t id h w =
    let whole : take 8 id ≡ id = rw append-nil at (take-append 8 id [] w.0) in
    ground (arith, h, w.0, whole)

pub control_ignored :
    (d : PacketConn) (t : ℕ) (payload : List ℕ) (s : SecureStream)
    → is_control t ≡ true
    → datagram_of d (bare_event (frame_of s t [] payload)) ≡ none
unfolding datagram_of
control_ignored d t payload s h = ground (arith, h)

pub probe_ignored :
    (d : PacketConn) (t : ℕ) (id : List ℕ) (a : Address) (has : Bool) (b : List ℕ)
    → (t == udp_probe_req || t == udp_probe_resp) ≡ true
    → datagram_of d (record { type = t; global_id = id; address = a; has_addr = has; payload = b })
      ≡ none
unfolding datagram_of
probe_ignored d t id a has b h = ground (arith, h)

pub foreign_ignored :
    (d : PacketConn) (t : ℕ) (id : List ℕ) (a : Address) (has : Bool) (b : List ℕ)
    → (t == udp_data || t == udp_new) ≡ true
    → bytes_eq id d.global_id ≡ false
    → datagram_of d (record { type = t; global_id = id; address = a; has_addr = has; payload = b })
      ≡ none
unfolding datagram_of
foreign_ignored d t id a has b ht h = ground (arith, ht, h)

pub foreign_end_ignored :
    (d : PacketConn) (id : List ℕ)
    → bytes_eq id d.global_id ≡ false
    → datagram_of d (record {
      type = udp_end;
      global_id = id;
      address = zero_address;
      has_addr = false;
      payload = [];
    })
      ≡ none
unfolding datagram_of
foreign_end_ignored d id h = ground (arith, h)
