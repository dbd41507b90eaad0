-- ===== src/Address/Wire.antt =====
-- The wire form of an address, and what the wire keeps of it.
use sing_ewp.Prelude.{
  ℕ, ◌+◌, ◌^◌, ◌<◌, ◌≡◌, refl, ap, Bool, true, List, [], ◌∷◌, ◌++◌, append_assoc, arith, length,
  length-append, leb, if◌then◌else◌, ◌≤◌,
}
use sing_ewp.Bytes.{IsBytes, IsArray}
use sing_ewp.Errors.{ok, err, domain_len, invalid_address}
use sing_ewp.Address.{
  NetipAddr, zero_addr, ipv4, ipv6, Address, zero_address, is_domain, is_set, is6, append_ip,
  append, encoded_len, port_bytes, max_domain_len, addr_type_ipv4, addr_type_ipv6, addr_type_domain,
}

-- What Go's types say of an address: sizes of the arrays, a port of 16 bits.
abbrev pub IsIp : NetipAddr → Type 0
IsIp zero_addr = Unit
IsIp (ipv4 ip) = IsArray 4 ip
IsIp (ipv6 ip zone) = IsArray 16 ip

pub record IsAddress (a : Address) : Type 0 where
  pub ip : IsIp a.addr.ip
  pub ip_port : a.addr.port < 2 ^ 16
  pub name : IsBytes a.domain
  pub name_port : a.port < 2 ^ 16

-- The part of an address that is sent: a domain hides the IP address, and a zone is dropped.
abbrev pub on_wire_ip : NetipAddr → ℕ → Address
on_wire_ip zero_addr port = zero_address
on_wire_ip (ipv4 ip) port = record zero_address { addr = record { ip = ipv4 ip; port = port } }
on_wire_ip (ipv6 ip zone) port = record zero_address {
  addr = record { ip = ipv6 ip []; port = port };
}

unfoldable pub on_wire : Address → Address
unfolding is_domain
on_wire a =
    if is_domain a
    then record zero_address { domain = a.domain; port = a.port }
    else on_wire_ip a.addr.ip a.addr.port

abbrev pub wire_ip : NetipAddr → ℕ → List ℕ
wire_ip zero_addr port = []
wire_ip (ipv4 ip) port = addr_type_ipv4 ∷ (ip ++ port_bytes port)
wire_ip (ipv6 ip zone) port = addr_type_ipv6 ∷ (ip ++ port_bytes port)

abbrev pub wire_domain : List ℕ → ℕ → List ℕ
wire_domain name port = addr_type_domain ∷ length name ∷ (name ++ port_bytes port)

unfoldable pub wire : Address → List ℕ
unfolding is_domain
wire a = if is_domain a then wire_domain a.domain a.port else wire_ip a.addr.ip a.addr.port

pub append_pieces :
    (dst head body tail : List ℕ)
    → ((dst ++ head) ++ body) ++ tail ≡ dst ++ (head ++ (body ++ tail))
append_pieces dst head body tail = simp append_assoc

append_ip_lem :
    (ip : NetipAddr) (port : ℕ) (dst : List ℕ)
    → append_ip ip port dst
      ≡ (if is_set ip then ok (dst ++ wire_ip ip port) else err invalid_address)
unfolding append_ip
append_ip_lem zero_addr port dst = refl
append_ip_lem (ipv4 ip) port dst =
    ap ok (append_pieces dst (addr_type_ipv4 ∷ []) ip (port_bytes port))
append_ip_lem (ipv6 ip zone) port dst =
    ap ok (append_pieces dst (addr_type_ipv6 ∷ []) ip (port_bytes port))

-- An address can be sent if it has a name of at most 253 bytes, or no name and an IP address.
unfoldable pub sendable : Address → Bool
unfolding is_domain
sendable a = if is_domain a then leb (length a.domain) max_domain_len else is_set a.addr.ip

-- `Append` adds the wire form to what stands before it if the address can be sent, and fails with
-- the error of its case if not.
pub append_lem :
    (a : Address) (dst : List ℕ)
    → append a dst ≡ (
        if sendable a
        then ok (dst ++ wire a)
        else err (if is_domain a then domain_len else invalid_address))
unfolding append wire sendable
append_lem a dst = ground (
  arith,
  append_ip_lem a.addr.ip a.addr.port dst,
  append_pieces dst (addr_type_domain ∷ length a.domain ∷ []) a.domain (port_bytes a.port),
)

length-wire_ip :
    (ip : NetipAddr) (port : ℕ)
    → IsIp ip
    → is_set ip ≡ true
    → length (wire_ip ip port) ≡ (if is6 ip then 1 + 16 + 2 else 1 + 4 + 2)
length-wire_ip zero_addr port w h = cc
length-wire_ip (ipv4 ip) port w h = omega (arith, length-append ip (port_bytes port))
length-wire_ip (ipv6 ip zone) port w h = omega (arith, length-append ip (port_bytes port))

-- `EncodedLen` is the number of bytes that `Append` adds.
pub length-wire : (a : Address) → IsAddress a → sendable a ≡ true → length (wire a) ≡ encoded_len a
unfolding wire sendable encoded_len
length-wire a w h =
    ground
      (arith, length-wire_ip a.addr.ip a.addr.port w.ip, length-append a.domain (port_bytes a.port))

pub encoded_len_bounds :
    (a : Address) → sendable a ≡ true → (1 ≤ encoded_len a) × (encoded_len a ≤ 257)
unfolding encoded_len sendable
encoded_len_bounds a h = ground arith
