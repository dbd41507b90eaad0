-- ===== src/Address.antt =====
-- address.go: destinations, and their wire form.
pub mod Wire
pub mod RoundTrip
pub mod Sound
mod Tests
use sing_ewp.Prelude.{
  ℕ, ◌+◌, ◌/◌, ◌%◌, Bool, true, false, ◌||◌, not, List, [], ◌∷◌, ◌++◌, length, take, drop, ltb,
  ◌==◌, if◌then◌else◌,
}
use sing_ewp.Bytes.{uint16}
use sing_ewp.Errors.{
  Result, ok, err, addr_too_short, addr_type, domain_len, invalid_address, ◌>>=◌, ◌>>◌, reject,
}

abbrev pub max_domain_len : ℕ
max_domain_len = 253

abbrev pub addr_type_ipv4 : ℕ
addr_type_ipv4 = 0x01

abbrev pub addr_type_ipv6 : ℕ
addr_type_ipv6 = 0x02

abbrev pub addr_type_domain : ℕ
addr_type_domain = 0x03

-- net/netip: the zero Addr, an IPv4 address of 4 bytes, an IPv6 address of 16 bytes with its zone.
-- An IPv4-mapped IPv6 address is an `ipv6` here, as `Is6` has it.
pub data NetipAddr : Type 0 where
  zero_addr : NetipAddr
  ipv4 : List ℕ → NetipAddr
  ipv6 : List ℕ → List ℕ → NetipAddr

pub record AddrPort : Type 0 where
  pub ip : NetipAddr
  pub port : ℕ

-- netip.Addr's IsValid and Is6; `AddrPort.IsValid` asks its IP address.
abbrev pub is_set : NetipAddr → Bool
is_set zero_addr = false
is_set (ipv4 _) = true
is_set (ipv6 _ _) = true

abbrev pub is6 : NetipAddr → Bool
is6 zero_addr = false
is6 (ipv4 _) = false
is6 (ipv6 _ _) = true

pub record Address : Type 0 where
  pub addr : AddrPort
  pub domain : List ℕ
  pub port : ℕ

abbrev pub zero_addr_port : AddrPort
zero_addr_port = record { ip = zero_addr; port = 0 }

-- `Address{}`
abbrev pub zero_address : Address
zero_address = record { addr = zero_addr_port; domain = []; port = 0 }

unfoldable pub is_domain : Address → Bool
is_domain a = not (length a.domain == 0)

unfoldable pub encoded_len : Address → ℕ
unfolding is_domain
encoded_len a =
    if is_domain a
    then 1 + 1 + length a.domain + 2
    else if is6 a.addr.ip
    then 1 + 16 + 2
    else 1 + 4 + 2

-- byte(port>>8), byte(port)
abbrev pub port_bytes : ℕ → List ℕ
port_bytes port = (port / 256 % 256) ∷ (port % 256) ∷ []

-- The second and third case of `Append`.
unfoldable pub append_ip : NetipAddr → ℕ → List ℕ → Result (List ℕ)
append_ip (ipv4 ip4) port dst = ok (((dst ++ addr_type_ipv4 ∷ []) ++ ip4) ++ port_bytes port)
append_ip (ipv6 ip6 zone) port dst = ok (((dst ++ addr_type_ipv6 ∷ []) ++ ip6) ++ port_bytes port)
append_ip zero_addr port dst = err invalid_address

-- Address.Append. `byte(len)` of a domain is its length, which is at most 253 there.
unfoldable pub append : Address → List ℕ → Result (List ℕ)
unfolding is_domain append_ip
append a dst =
    if is_domain a
    then (if length a.domain == 0 || ltb max_domain_len (length a.domain)
        then err domain_len
        else ok (
            ((dst ++ addr_type_domain ∷ (length a.domain % 256) ∷ []) ++ a.domain)
            ++ port_bytes a.port))
    else append_ip a.addr.ip a.addr.port dst

unfoldable pub decode_ipv4 : List ℕ → Result (Address × ℕ)
decode_ipv4 buf = do
  reject (ltb (length buf) (1 + 4 + 2)) addr_too_short
  let ip = take 4 (drop 1 buf)
  let port = uint16 (take 2 (drop 5 buf))
  ok (record zero_address { addr = record { ip = ipv4 ip; port = port } }, 7)

unfoldable pub decode_ipv6 : List ℕ → Result (Address × ℕ)
decode_ipv6 buf = do
  reject (ltb (length buf) (1 + 16 + 2)) addr_too_short
  let ip = take 16 (drop 1 buf)
  let port = uint16 (take 2 (drop 17 buf))
  ok (record zero_address { addr = record { ip = ipv6 ip []; port = port } }, 19)

-- `dlen` is `buf[1]`.
unfoldable pub decode_domain : ℕ → List ℕ → Result (Address × ℕ)
decode_domain dlen buf = do
  reject (dlen == 0 || ltb max_domain_len dlen) domain_len
  reject (ltb (length buf) (2 + dlen + 2)) addr_too_short
  let domain = take dlen (drop 2 buf)
  let port = uint16 (take 2 (drop (2 + dlen) buf))
  ok (record zero_address { domain = domain; port = port }, 2 + dlen + 2)

-- The AddrTypeDomain case: the second byte is there, or the buffer is too short.
unfoldable pub decode_domain_case : List ℕ → Result (Address × ℕ)
unfolding decode_domain
decode_domain_case (t ∷ dlen ∷ more) = decode_domain dlen (t ∷ dlen ∷ more)
decode_domain_case _ = err addr_too_short

unfoldable pub decode_address : List ℕ → Result (Address × ℕ)
unfolding decode_ipv4 decode_ipv6 decode_domain_case
decode_address [] = err addr_too_short
decode_address (t ∷ rest) =
    if t == addr_type_ipv4
    then decode_ipv4 (t ∷ rest)
    else if t == addr_type_ipv6
    then decode_ipv6 (t ∷ rest)
    else if t == addr_type_domain
    then decode_domain_case (t ∷ rest)
    else err addr_type
