-- ===== src/NetAddr/Reply.antt =====
-- A reply to the source of a datagram.
-- An IPv4-mapped IPv6 address as the IPv4 address that it stands for.
use sing_ewp.Errors.{ok}
use sing_ewp.Prelude.Int.{pos}
use sing_ewp.Address.Wire.{IsAddress, sendable, on_wire, on_wire_ip, IsIp}
use sing_ewp.NetAddr.{
  addr_from_slice, ip_to_ewp, ewp_to_net_addr, to_uint16, addr_to_ewp, NetAddr, unmap, udp_addr,
  fqdn_addr,
}
use sing_ewp.Address.{ipv6, is_domain, NetipAddr, is_set, Address, zero_addr, ipv4, zero_address}
use sing_ewp.Prelude.{
  refl, [], inl, inr, ◌==◌, ◌≡◌, ◌^◌, arith, length, ◌<◌, true, Bool-cases, ℕ, some, sym, ap, ◌∙◌,
}

abbrev pub unmapped : Address → Address
unmapped a = record a { addr = record { ip = unmap a.addr.ip; port = a.addr.port } }

port_kept : (port : ℕ) → port < 2 ^ 16 → to_uint16 (pos port) ≡ port
port_kept port h = omega arith

ip_reply :
    (ip : NetipAddr) (port : ℕ)
    → IsIp ip
    → port < 2 ^ 16
    → is_set ip ≡ true
    → (addr : NetAddr) × (ewp_to_net_addr (on_wire_ip ip port) ≡ some addr)
      × (addr_to_ewp addr ≡ ok (unmapped (on_wire_ip ip port)))
unfolding ewp_to_net_addr addr_to_ewp ip_to_ewp addr_from_slice unmap
ip_reply zero_addr port w h s = absurd (ground (arith, s))
ip_reply (ipv4 ip) port w h s =
    (udp_addr ip (pos port) [], refl, ground (arith, w.0, port_kept port h))
ip_reply (ipv6 ip zone) port w h s =
    (udp_addr ip (pos port) [], refl, ground (arith, w.0, port_kept port h))

-- The source that a ReadFrom reports for an address with a name of at most 253 bytes or an IP address
-- is a target that WriteTo accepts, and stands for the same address: the part of it that is sent, with
-- an IPv4-mapped IPv6 address as IPv4.
pub addr_to_ewp-ewp_to_net_addr :
    (a : Address)
    → IsAddress a
    → sendable a ≡ true
    → (addr : NetAddr) × (ewp_to_net_addr (on_wire a) ≡ some addr)
      × (addr_to_ewp addr ≡ ok (unmapped (on_wire a)))
unfolding on_wire sendable is_domain ewp_to_net_addr addr_to_ewp unmap
addr_to_ewp-ewp_to_net_addr a w h = elim (Bool-cases (length a.domain == 0)) [
  | inl e ↦
      let plain : on_wire a ≡ on_wire_ip a.addr.ip a.addr.port = ground (arith, e) in
      let set : is_set a.addr.ip ≡ true = ground (arith, e, h) in
      let (addr, there, back) = ip_reply a.addr.ip a.addr.port w.ip w.ip_port set in
      (addr, ap ewp_to_net_addr plain ∙ there, back ∙ ap (λ x. ok (unmapped x)) (sym plain))
  | inr e ↦
      let plain : on_wire a ≡ record zero_address { domain = a.domain; port = a.port } =
        ground (arith, e) in
      (
        fqdn_addr a.domain a.port,
        ap ewp_to_net_addr plain ∙ ground (arith, e),
        ground (arith, e, h) ∙ ap (λ x. ok (unmapped x)) (sym plain),
      )
]
