-- ===== src/NetAddr/Tests.antt =====
-- An IPv4-mapped source.
use sing_ewp.NetAddr.Reply.{unmapped, addr_to_ewp-ewp_to_net_addr}
use sing_ewp.Address.{zero_address, Address, ipv6, is_domain}
use sing_ewp.Errors.{ok}
use sing_ewp.Prelude.{◌∷◌, ◌≡◌, arith, [], refl, some, ◌++◌}
use sing_ewp.NetAddr.{ewp_to_net_addr, addr_to_ewp, mapped_prefix, NetAddr}
use sing_ewp.Address.Wire.{on_wire, sendable}

abbrev mapped : Address
mapped = record zero_address {
  addr = record { ip = ipv6 (mapped_prefix ++ (10 ∷ 0 ∷ 0 ∷ 7 ∷ [])) []; port = 53 };
}

addr_to_ewp-ewp_to_net_addr_example :
    (addr : NetAddr) × (ewp_to_net_addr (on_wire mapped) ≡ some addr)
    × (addr_to_ewp addr ≡ ok (unmapped (on_wire mapped)))
unfolding sendable is_domain
addr_to_ewp-ewp_to_net_addr_example =
    addr_to_ewp-ewp_to_net_addr mapped
      (record {
        ip = (refl, ground arith);
        ip_port = omega arith;
        name = tt;
        name_port = omega arith;
      })
      refl
