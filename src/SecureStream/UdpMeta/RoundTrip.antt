-- ===== src/SecureStream/UdpMeta/RoundTrip.antt =====
-- What the meta of a UDP frame carries.
use sing_ewp.Address.RoundTrip.{decode_address-append}
use sing_ewp.Kdf.{max_meta_len}
use sing_ewp.SecureStream.UdpMeta.{build_udp_meta, parse_udp_meta, has_target}
use sing_ewp.Address.{
  decode_address, append, Address, encoded_len, is_domain, zero_address, ipv4, ipv6, is_set,
  zero_addr, NetipAddr,
}
use sing_ewp.Address.Wire.{
  sendable, IsAddress, on_wire, append_lem, wire, encoded_len_bounds, length-wire, on_wire_ip,
}
use sing_ewp.Prelude.{
  append-nil, arith, inr, length-append, false, length, [], take, take-append, List, ◌≤◌, ltb,
  Bool-cases, drop, inl, ◌≡◌, drop-append, ◌↔◌, ◌+◌, ℕ, if◌then◌else◌, true, ◌++◌, refl,
}
use sing_ewp.Bytes.{IsArray}
use sing_ewp.Errors.{>>=-eq-ok, meta_too_large, ok, reject-eq-ok}

unset_ip : (ip : NetipAddr) (port : ℕ) → is_set ip ≡ false → on_wire_ip ip port ≡ zero_address
unset_ip zero_addr port h = refl
unset_ip (ipv4 ip) port h = cc
unset_ip (ipv6 ip zone) port h = cc

unset : (a : Address) → has_target a ≡ false → on_wire a ≡ zero_address
unfolding on_wire
unset a h = ground (arith, h, unset_ip a.addr.ip a.addr.port)

with_target :
    (gid : List ℕ) (a : Address) (meta : List ℕ)
    → IsArray 8 gid
    → IsAddress a
    → has_target a ≡ true
    → build_udp_meta gid a ≡ ok meta
    → (parse_udp_meta meta ≡ ok (gid, on_wire a, has_target a))
      × (8 ≤ length meta)
      × (length meta ≤ 265)
unfolding build_udp_meta parse_udp_meta
with_target gid a meta hg ha e h =
    let (out, eo, h1) = >>=-eq-ok (if has_target a then append a gid else ok gid) _ h in
    let (small, h2) = reject-eq-ok (ltb max_meta_len (length out)) meta_too_large _ h1 in
    let same : out ≡ meta = ground (arith, h2) in
    let appended : append a gid ≡ ok meta = ground (arith, eo, e, same) in
    let (w, cut, size, read) = decode_address-append a gid meta [] ha appended in
    let sends : sendable a ≡ true = ground (arith, append_lem a gid) in
    let bounds = encoded_len_bounds a sends in
    let total : length meta ≡ 8 + encoded_len a =
      rw cut (omega (arith, length-append gid w, hg.0, size)) in
    let front : take 8 meta ≡ gid = rw cut (take-append 8 gid w hg.0) in
    let back : drop 8 meta ≡ w = rw cut (drop-append 8 gid w hg.0) in
    let read' : decode_address (drop 8 meta) ≡ ok (on_wire a, encoded_len a) =
      rw back (rw append-nil at read) in
    (
      ground (arith, total, bounds, front, read', e),
      omega (arith, total),
      omega (arith, total, bounds),
    )

without_target :
    (gid : List ℕ) (a : Address) (meta : List ℕ)
    → IsArray 8 gid
    → has_target a ≡ false
    → build_udp_meta gid a ≡ ok meta
    → (parse_udp_meta meta ≡ ok (gid, on_wire a, has_target a))
      × (8 ≤ length meta)
      × (length meta ≤ 265)
unfolding build_udp_meta parse_udp_meta
without_target gid a meta hg e h =
    let same : gid ≡ meta = ground (arith, e, hg.0) in
    let size : length meta ≡ 8 = rw (← same) hg.0 in
    let front : take 8 meta ≡ gid = rw (← same) (rw append-nil at (take-append 8 gid [] hg.0)) in
    let nowhere : on_wire a ≡ zero_address = unset a e in
    (ground (arith, size, front, nowhere, e), omega (arith, size), omega (arith, size))

-- `parseUDPMeta` reads back from the meta that `buildUDPMeta` builds the id, whether there is an
-- address, and the part of the address that is sent. The meta has 8 to 265 bytes.
pub parse_udp_meta-build_udp_meta :
    (gid : List ℕ) (a : Address) (meta : List ℕ)
    → IsArray 8 gid
    → IsAddress a
    → build_udp_meta gid a ≡ ok meta
    → (parse_udp_meta meta ≡ ok (gid, on_wire a, has_target a))
      × (8 ≤ length meta)
      × (length meta ≤ 265)
parse_udp_meta-build_udp_meta gid a meta hg ha h = elim (Bool-cases (has_target a)) [
  | inl e ↦ with_target gid a meta hg ha e h
  | inr e ↦ without_target gid a meta hg e h
]

no_meta_for_long_names :
    (gid : List ℕ) (a : Address) (meta : List ℕ)
    → build_udp_meta gid a ≡ ok meta
    → length a.domain ≤ 253
unfolding build_udp_meta is_domain sendable
no_meta_for_long_names gid a meta h = ground (arith, append_lem a gid)

meta_for_short_names :
    (gid : List ℕ) (a : Address)
    → IsArray 8 gid
    → IsAddress a
    → length a.domain ≤ 253
    → (meta : List ℕ) × (build_udp_meta gid a ≡ ok meta)
unfolding build_udp_meta
meta_for_short_names gid a hg ha short = elim (Bool-cases (has_target a)) [
  | inl e ↦
      let s : sendable a ≡ true = unfold sendable is_domain in ground arith in
      let total : length (gid ++ wire a) ≤ 265 =
        omega
          (arith, length-append gid (wire a), length-wire a ha s, encoded_len_bounds a s, hg.0) in
      (gid ++ wire a, ground (arith, append_lem a gid, s, e, total))
  | inr e ↦ (gid, ground (arith, e, hg.0))
]

-- Exactly an address whose name is at most 253 bytes long, or that has no name, has a meta.
pub build_udp_meta_ok_iff :
    (gid : List ℕ) (a : Address)
    → IsArray 8 gid
    → IsAddress a
    → ((meta : List ℕ) × (build_udp_meta gid a ≡ ok meta)) ↔ (length a.domain ≤ 253)
build_udp_meta_ok_iff gid a hg ha =
    (λ (meta, h). no_meta_for_long_names gid a meta h, meta_for_short_names gid a hg ha)
