-- ===== src/Frame/Types.antt =====
-- FrameType of frame.go.
-- FrameType is a byte.
use sing_ewp.Prelude.{ℕ, ◌||◌, Bool, ◌==◌}

abbrev pub tcp_data : ℕ
tcp_data = 0x01

abbrev pub udp_data : ℕ
udp_data = 0x02

abbrev pub udp_new : ℕ
udp_new = 0x03

abbrev pub udp_end : ℕ
udp_end = 0x04

abbrev pub udp_probe_req : ℕ
udp_probe_req = 0x05

abbrev pub udp_probe_resp : ℕ
udp_probe_resp = 0x06

abbrev pub ping : ℕ
ping = 0x10

abbrev pub pong : ℕ
pong = 0x11

abbrev pub rekey_req : ℕ
rekey_req = 0x12

abbrev pub rekey_resp : ℕ
rekey_resp = 0x13

abbrev pub padding_only : ℕ
padding_only = 0x20

-- FrameType.Valid
unfoldable pub valid : ℕ → Bool
valid t =
    t == tcp_data
    || t == udp_data
    || t == udp_new
    || t == udp_end
    || t == udp_probe_req
    || t == udp_probe_resp
    || t == ping
    || t == pong
    || t == rekey_req
    || t == rekey_resp
    || t == padding_only
