-- ===== src/Address/RoundTrip.antt =====
-- `DecodeAddress` and `Append` undo one another.
use sing_ewp.Prelude.{
  ℕ, ◌+◌, ◌^◌, ◌<◌, ◌≤◌, ◌≡◌, refl, true, List, [], ◌∷◌, ◌++◌, append_assoc, arith, length,
  length-append, take, drop, take_mid, if◌then◌else◌, Bool-cases, inl, inr,
}
use sing_ewp.Bytes.{IsArray, uint16}
use sing_ewp.Errors.{ok}
use sing_ewp.Address.{
  NetipAddr, zero_addr, ipv4, ipv6, Address, zero_address, is_domain, is_set, is6, append,
  encoded_len, port_bytes, max_domain_len, addr_type_ipv4, addr_type_ipv6, addr_type_domain,
  decode_ipv4, decode_ipv6, decode_domain, decode_domain_case, decode_address,
}
use sing_ewp.Address.Wire.{
  IsIp, IsAddress, on_wire_ip, on_wire, wire_ip, wire_domain, wire, append_lem, sendable,
  length-wire,
}

-- The port is read back from its two bytes.
uint16-port_bytes : (port : ℕ) → port < 2 ^ 16 → uint16 (port_bytes port) ≡ port
unfolding uint16
uint16-port_bytes port h = omega arith

read_port :
    (off port : ℕ) (pre post : List ℕ)
    → port < 2 ^ 16
    → length pre ≡ off
    → uint16 (take 2 (drop off (pre ++ (port_bytes port ++ post)))) ≡ port
read_port off port pre post hp h =
    rw (take_mid off 2 pre (port_bytes port) post h refl) (uint16-port_bytes port hp)

decode_ipv4-wire :
    (ip : List ℕ) (port : ℕ) (rest : List ℕ)
    → IsArray 4 ip
    → port < 2 ^ 16
    → decode_ipv4 (addr_type_ipv4 ∷ (ip ++ (port_bytes port ++ rest)))
      ≡ ok (on_wire_ip (ipv4 ip) port, 7)
unfolding decode_ipv4
decode_ipv4-wire ip port rest hi hp = ground (
  arith,
  length-append ip (port_bytes port ++ rest),
  take_mid 1 4 (addr_type_ipv4 ∷ []) ip (port_bytes port ++ rest),
  read_port 5 port (addr_type_ipv4 ∷ ip) rest,
)

decode_ipv6-wire :
    (ip : List ℕ) (port : ℕ) (rest : List ℕ)
    → IsArray 16 ip
    → port < 2 ^ 16
    → decode_ipv6 (addr_type_ipv6 ∷ (ip ++ (port_bytes port ++ rest)))
      ≡ ok (on_wire_ip (ipv6 ip []) port, 19)
unfolding decode_ipv6
decode_ipv6-wire ip port rest hi hp = ground (
  arith,
  length-append ip (port_bytes port ++ rest),
  take_mid 1 16 (addr_type_ipv6 ∷ []) ip (port_bytes port ++ rest),
  read_port 17 port (addr_type_ipv6 ∷ ip) rest,
)

decode_domain-wire :
    (name : List ℕ) (port : ℕ) (rest : List ℕ)
    → 0 < length name
    → length name ≤ max_domain_len
    → port < 2 ^ 16
    → decode_domain
        (length name)
        (addr_type_domain ∷ length name ∷ (name ++ (port_bytes port ++ rest)))
      ≡ ok (record zero_address { domain = name; port = port }, 2 + length name + 2)
unfolding decode_domain
decode_domain-wire name port rest h0 h1 hp = ground (
  arith,
  length-append name (port_bytes port ++ rest),
  take_mid 2 (length name) (addr_type_domain ∷ length name ∷ []) name (port_bytes port ++ rest),
  read_port (2 + length name) port (addr_type_domain ∷ length name ∷ name) rest,
)

decode_address-wire_ip :
    (ip : NetipAddr) (port : ℕ) (rest : List ℕ)
    → IsIp ip
    → port < 2 ^ 16
    → is_set ip ≡ true
    → decode_address (wire_ip ip port ++ rest)
      ≡ ok (on_wire_ip ip port, if is6 ip then 1 + 16 + 2 else 1 + 4 + 2)
unfolding decode_address
decode_address-wire_ip zero_addr port rest w hp h = cc
decode_address-wire_ip (ipv4 ip) port rest w hp h =
    rw append_assoc (decode_ipv4-wire ip port rest w hp)
decode_address-wire_ip (ipv6 ip zone) port rest w hp h =
    rw append_assoc (decode_ipv6-wire ip port rest w hp)

decode_address-wire_domain :
    (name : List ℕ) (port : ℕ) (rest : List ℕ)
    → 0 < length name
    → length name ≤ max_domain_len
    → port < 2 ^ 16
    → decode_address (wire_domain name port ++ rest)
      ≡ ok (record zero_address { domain = name; port = port }, 2 + length name + 2)
unfolding decode_address decode_domain_case
decode_address-wire_domain name port rest h0 h1 hp =
    rw append_assoc (decode_domain-wire name port rest h0 h1 hp)

pub decode_address-wire :
    (a : Address) (rest : List ℕ)
    → IsAddress a
    → sendable a ≡ true
    → decode_address (wire a ++ rest) ≡ ok (on_wire a, encoded_len a)
unfolding wire on_wire sendable encoded_len
decode_address-wire a rest w h = elim (Bool-cases (is_domain a)) [
  | inl e ↦
      rw e
        (decode_address-wire_domain a.domain a.port rest (ground arith) (ground arith) w.name_port)
  | inr e ↦ rw e (decode_address-wire_ip a.addr.ip a.addr.port rest w.ip w.ip_port (ground arith))
]

-- For an address of Go's sizes that `Append` accepts, `Append` adds `EncodedLen` bytes to what stands
-- before, and `DecodeAddress` reads from those bytes, whatever follows them, the part of the address
-- that is sent (a name hides the IP address, a zone is dropped) and consumes exactly those bytes.
pub decode_address-append :
    (a : Address) (dst out rest : List ℕ)
    → IsAddress a
    → append a dst ≡ ok out
    → (w : List ℕ) × (out ≡ dst ++ w)
      × (length w ≡ encoded_len a)
      × (decode_address (w ++ rest) ≡ ok (on_wire a, encoded_len a))
decode_address-append a dst out rest w h =
    let s : sendable a ≡ true = ground (arith, append_lem a dst) in
    let e : ok (dst ++ wire a) ≡ ok out = rw (append_lem, s) at h in
    (wire a, cc e, length-wire a w s, decode_address-wire a rest w s)
