-- ===== src/SecureStream/UdpMeta.antt =====
-- buildUDPMeta and parseUDPMeta of securestream.go: a session's id and, if there is one, an address.
pub mod RoundTrip
-- `target.IsDomain() || target.Addr.IsValid()`
use sing_ewp.Kdf.{max_meta_len}
use sing_ewp.Errors.{reject, meta_too_large, ◌>>=◌, udp_meta_short, Result, ◌>>◌, ok}
use sing_ewp.Prelude.{
  ℕ, ◌||◌, Bool, ltb, if◌then◌else◌, drop, length, List, ◌==◌, false, take, true,
}
use sing_ewp.Address.{is_domain, zero_address, Address, append, decode_address, is_set}

abbrev pub has_target : Address → Bool
has_target a = is_domain a || is_set a.addr.ip

-- An id is eight bytes, so the copy of it is the id.
unfoldable pub build_udp_meta : List ℕ → Address → Result (List ℕ)
build_udp_meta gid target = do
  out ← (if has_target target then append target gid else ok gid)
  reject (ltb max_meta_len (length out)) meta_too_large
  ok out

unfoldable pub parse_udp_meta : List ℕ → Result (List ℕ × Address × Bool)
parse_udp_meta meta = do
  reject (ltb (length meta) 8) udp_meta_short
  let gid = take 8 meta
  if length meta == 8
      then ok (gid, zero_address, false)
      else (do (addr, n) ← decode_address (drop 8 meta); ok (gid, addr, true))
