-- ===== src/NetAddr.antt =====
-- The conversions of packetconn.go between net.Addr and Address.
pub mod Reply
mod Tests
use sing_ewp.Prelude.Int.{ℤ, negsuc, pos}
use sing_ewp.Errors.{invalid_ip, domain_len, ok, unsupported_addr, err, Result}
use sing_ewp.Address.{ipv6, NetipAddr, zero_addr, Address, max_domain_len, zero_address, ipv4}
use sing_ewp.Prelude.{
  ◌-◌, take, none, ◌==◌, ◌∷◌, List, [], Option, ◌^◌, bytes_eq, ltb, ℕ, if◌then◌else◌, drop, not,
  some, ap, length, ◌%◌,
}

-- The net.Addr values of the switch of addrToEWP; every other type is `other_addr`. An IP is a slice of
-- any length, a port is an `int`.
pub data NetAddr : Type 0 where
  udp_addr : List ℕ → ℤ → List ℕ → NetAddr
  tcp_addr : List ℕ → ℤ → NetAddr
  fqdn_addr : List ℕ → ℕ → NetAddr
  other_addr : NetAddr

-- The conversion `uint16(n)` of an `int`.
abbrev pub to_uint16 : ℤ → ℕ
to_uint16 (pos n) = n % 2 ^ 16
to_uint16 (negsuc n) = 2 ^ 16 - 1 - n % 2 ^ 16

-- netip.AddrFromSlice
unfoldable pub addr_from_slice : List ℕ → Option NetipAddr
addr_from_slice ip =
    if length ip == 4 then some (ipv4 ip) else if length ip == 16 then some (ipv6 ip []) else none

-- The prefix of an IPv4-mapped IPv6 address.
abbrev pub mapped_prefix : List ℕ
mapped_prefix = 0 ∷ 0 ∷ 0 ∷ 0 ∷ 0 ∷ 0 ∷ 0 ∷ 0 ∷ 0 ∷ 0 ∷ 255 ∷ 255 ∷ []

-- netip.Addr.Unmap
unfoldable pub unmap : NetipAddr → NetipAddr
unmap zero_addr = zero_addr
unmap (ipv4 ip) = ipv4 ip
unmap (ipv6 ip zone) =
    if bytes_eq (take 12 ip) mapped_prefix then ipv4 (drop 12 ip) else ipv6 ip zone

-- The two cases of an IP address in addrToEWP.
unfoldable pub ip_to_ewp : List ℕ → ℤ → Result Address
ip_to_ewp ip port = elim (addr_from_slice ip) [
  | none ↦ err invalid_ip
  | some ap ↦ ok (record zero_address { addr = record { ip = unmap ap; port = to_uint16 port } })
]

unfoldable pub addr_to_ewp : NetAddr → Result Address
addr_to_ewp (udp_addr ip port zone) = ip_to_ewp ip port
addr_to_ewp (tcp_addr ip port) = ip_to_ewp ip port
addr_to_ewp (fqdn_addr fqdn port) =
    if ltb max_domain_len (length fqdn)
    then err domain_len
    else ok (record zero_address { domain = fqdn; port = port })
addr_to_ewp other_addr = err unsupported_addr

-- net.UDPAddrFromAddrPort of a valid address, and nil.
abbrev pub ip_to_net_addr : NetipAddr → ℕ → Option NetAddr
ip_to_net_addr zero_addr port = none
ip_to_net_addr (ipv4 ip) port = some (udp_addr ip (pos port) [])
ip_to_net_addr (ipv6 ip zone) port = some (udp_addr ip (pos port) zone)

unfoldable pub ewp_to_net_addr : Address → Option NetAddr
ewp_to_net_addr a =
    if not (length a.domain == 0)
    then some (fqdn_addr a.domain a.port)
    else ip_to_net_addr a.addr.ip a.addr.port
