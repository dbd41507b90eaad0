-- ===== src/SecureStream/Events.antt =====
-- Event, and the switch of Recv in securestream.go.
use sing_ewp.Frame.{DecodedFrame}
use sing_ewp.Address.{Address, zero_address}
use sing_ewp.SecureStream.UdpMeta.{parse_udp_meta}
use sing_ewp.Prelude.{ℕ, ◌||◌, replicate, ltb, if◌then◌else◌, List, length, Bool, ◌==◌, take, false}
use sing_ewp.Frame.{
  pong, rekey_req, tcp_data, udp_data, udp_end, udp_probe_resp, udp_probe_req, ping, udp_new,
  rekey_resp, padding_only,
}
use sing_ewp.Errors.{udp_meta_short, frame_type, ok, Result, err}

pub record Event : Type 0 where
  pub type : ℕ
  pub global_id : List ℕ
  pub address : Address
  pub has_addr : Bool
  pub payload : List ℕ

-- `&Event{Type: df.Type, Payload: df.Payload}`
abbrev pub bare_event : DecodedFrame → Event
bare_event fr = record {
  type = fr.type;
  global_id = replicate 8 0;
  address = zero_address;
  has_addr = false;
  payload = fr.payload;
}

-- The three groups of frame types of Recv.
abbrev pub carries_address : ℕ → Bool
carries_address t = t == udp_new || t == udp_data || t == udp_probe_resp

abbrev pub carries_id : ℕ → Bool
carries_id t = t == udp_end || t == udp_probe_req

abbrev pub carries_nothing : ℕ → Bool
carries_nothing t =
    t == tcp_data
    || t == ping
    || t == pong
    || t == padding_only
    || t == rekey_req
    || t == rekey_resp

-- The switch of Recv.
unfoldable pub event_of : DecodedFrame → Result Event
event_of fr =
    if carries_address fr.type
    then (elim (parse_udp_meta fr.meta) [
      | err e ↦ err e
      | ok (gid, addr, has_addr) ↦
          ok (record (bare_event fr) { global_id = gid; address = addr; has_addr = has_addr })
    ])
    else if carries_id fr.type
    then (if ltb (length fr.meta) 8
        then err udp_meta_short
        else ok (record (bare_event fr) { global_id = take 8 fr.meta }))
    else if carries_nothing fr.type
    then ok (bare_event fr)
    else err frame_type
