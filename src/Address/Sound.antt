-- ===== src/Address/Sound.antt =====
-- What `DecodeAddress` accepts is what `Append` writes, byte for byte.
use sing_ewp.Prelude.{
  ℕ, ◌+◌, ◌^◌, ◌<◌, ◌≤◌, ◌≡◌, refl, sym, subst, Bool, true, false, ◌||◌, List, [], ◌∷◌, ◌++◌,
  append_assoc, arith, length, take, drop, take_split, length-take, length-drop, All-take, All-drop,
  ltb, ◌==◌, if◌then◌else◌,
}
use sing_ewp.Bytes.{IsByte, IsBytes, IsArray, uint16, put_uint16, put_uint16-uint16, uint16-lt}
use sing_ewp.Errors.{Error, Result, ok, err, reject, ◌>>◌}
use sing_ewp.Address.{
  Address, is_domain, append, encoded_len, port_bytes, max_domain_len, addr_type_ipv4,
  addr_type_ipv6, addr_type_domain, decode_ipv4, decode_ipv6, decode_domain, decode_domain_case,
  decode_address,
}
use sing_ewp.Address.Wire.{IsAddress, append_lem, wire_domain, wire, sendable}

port_bytes-uint16 : (xs : List ℕ) → IsArray 2 xs → port_bytes (uint16 xs) ≡ xs
port_bytes-uint16 xs h = unfold put_uint16 in put_uint16-uint16 xs h

slice-IsArray :
    (off n : ℕ) (buf : List ℕ)
    → IsBytes buf
    → off + n ≤ length buf
    → IsArray n (take n (drop off buf))
slice-IsArray off n buf hb h = (
  omega (arith, length-take n (drop off buf), length-drop off buf),
  All-take IsByte n (drop off buf) (All-drop IsByte off buf hb),
)

-- A tag, a body and a port that were cut from a buffer are its front.
rebuild :
    (t k o m : ℕ) (buf : List ℕ)
    → IsBytes buf
    → o ≡ t + k
    → m ≡ o + 2
    → m ≤ length buf
    → take t buf ++ (take k (drop t buf) ++ port_bytes (uint16 (take 2 (drop o buf)))) ≡ take m buf
rebuild t k o m buf hb eo em h =
    rw
      (
        port_bytes-uint16 (take 2 (drop o buf)) (slice-IsArray o 2 buf hb (omega arith)),
        ← append_assoc,
        ← take_split o t k buf eo,
      )
      (sym (take_split m o 2 buf em))

-- What a successful decode of `buf` says of its result.
pub record Decoded (buf : List ℕ) (a : Address) (n : ℕ) : Type 0 where
  pub written : wire a ≡ take n buf
  pub within : n ≤ length buf
  pub sends : sendable a ≡ true
  pub typed : IsAddress a
  pub size : encoded_len a ≡ n

abbrev Sound : List ℕ → Result (Address × ℕ) → Type 0
Sound buf (ok (a, n)) = Decoded buf a n
Sound buf (err e) = Unit

Sound-reject :
    (buf : List ℕ) (t : Bool) (e : Error) (r : Result (Address × ℕ))
    → (t ≡ false → Sound buf r)
    → Sound buf (reject t e >> r)
Sound-reject buf true e r h = tt
Sound-reject buf false e r h = h refl

port-lt : (o : ℕ) (buf : List ℕ) → IsBytes buf → uint16 (take 2 (drop o buf)) < 2 ^ 16
port-lt o buf hb = uint16-lt _ (All-take IsByte 2 (drop o buf) (All-drop IsByte o buf hb))

decode_ipv4-Sound :
    (rest : List ℕ)
    → IsBytes rest
    → Sound (addr_type_ipv4 ∷ rest) (decode_ipv4 (addr_type_ipv4 ∷ rest))
unfolding decode_ipv4
decode_ipv4-Sound rest hb =
    let buf = addr_type_ipv4 ∷ rest in
    let hbuf : IsBytes buf = (omega arith, hb) in
    Sound-reject buf (ltb (length buf) 7) _ _ (λ h. record {
      written =
          unfold wire is_domain take in
          rebuild 1 4 5 7 buf hbuf (omega arith) (omega arith) (ground arith);
      within = ground arith;
      sends = unfold sendable is_domain in refl;
      typed = record {
        ip = slice-IsArray 1 4 buf hbuf (ground arith);
        ip_port = port-lt 5 buf hbuf;
        name = tt;
        name_port = omega arith;
      };
      size = unfold encoded_len in refl;
    })

decode_ipv6-Sound :
    (rest : List ℕ)
    → IsBytes rest
    → Sound (addr_type_ipv6 ∷ rest) (decode_ipv6 (addr_type_ipv6 ∷ rest))
unfolding decode_ipv6
decode_ipv6-Sound rest hb =
    let buf = addr_type_ipv6 ∷ rest in
    let hbuf : IsBytes buf = (omega arith, hb) in
    Sound-reject buf (ltb (length buf) 19) _ _ (λ h. record {
      written =
          unfold wire is_domain take in
          rebuild 1 16 17 19 buf hbuf (omega arith) (omega arith) (ground arith);
      within = ground arith;
      sends = unfold sendable is_domain in refl;
      typed = record {
        ip = slice-IsArray 1 16 buf hbuf (ground arith);
        ip_port = port-lt 17 buf hbuf;
        name = tt;
        name_port = omega arith;
      };
      size = unfold encoded_len in refl;
    })

-- A name that was read, put together again.
wire_domain-slice :
    (dlen : ℕ) (more : List ℕ)
    → IsBytes (dlen ∷ more)
    → 2 + dlen + 2 ≤ length (addr_type_domain ∷ dlen ∷ more)
    → wire_domain
        (take dlen more)
        (uint16 (take 2 (drop (2 + dlen) (addr_type_domain ∷ dlen ∷ more))))
      ≡ take (2 + dlen + 2) (addr_type_domain ∷ dlen ∷ more)
unfolding take drop
wire_domain-slice dlen more hb h =
    let e : length (take dlen more) ≡ dlen = omega (arith, length-take dlen more) in
    rw e (
      rebuild 2 dlen (2 + dlen) (2 + dlen + 2) (addr_type_domain ∷ dlen ∷ more) (omega arith, hb)
        refl refl h)

decode_domain-Sound :
    (dlen : ℕ) (more : List ℕ)
    → IsBytes (dlen ∷ more)
    → Sound (addr_type_domain ∷ dlen ∷ more) (decode_domain dlen (addr_type_domain ∷ dlen ∷ more))
unfolding decode_domain drop
decode_domain-Sound dlen more hb =
    let buf = addr_type_domain ∷ dlen ∷ more in
    let hbuf : IsBytes buf = (omega arith, hb) in
    Sound-reject buf (dlen == 0 || ltb max_domain_len dlen) _ _ (λ range.
      Sound-reject buf (ltb (length buf) (2 + dlen + 2)) _ _ (λ h.
        let e : length (take dlen more) ≡ dlen = ground (arith, length-take dlen more) in
        record {
          written =
              unfold wire is_domain in
              ground (arith, e, wire_domain-slice dlen more hb (ground arith));
          within = ground arith;
          sends = unfold sendable is_domain in ground (arith, e);
          typed = record {
            ip = tt;
            ip_port = omega arith;
            name = All-take IsByte dlen more hb.1;
            name_port = port-lt (2 + dlen) buf hbuf;
          };
          size = unfold encoded_len is_domain in ground (arith, e);
        }))

Sound-if :
    (buf : List ℕ) (t : Bool) (r s : Result (Address × ℕ))
    → (t ≡ true → Sound buf r)
    → (t ≡ false → Sound buf s)
    → Sound buf (if t then r else s)
Sound-if buf true r s hr hs = hr refl
Sound-if buf false r s hr hs = hs refl

domain-Sound :
    (rest : List ℕ)
    → IsBytes rest
    → Sound (addr_type_domain ∷ rest) (decode_domain_case (addr_type_domain ∷ rest))
unfolding decode_domain_case
domain-Sound [] hb = tt
domain-Sound (dlen ∷ more) hb = decode_domain-Sound dlen more hb

-- The case of a tag, for a first byte that equals it.
at_tag :
    (tag t : ℕ) (rest : List ℕ) (decode : List ℕ → Result (Address × ℕ))
    → Sound (tag ∷ rest) (decode (tag ∷ rest))
    → (t == tag) ≡ true
    → Sound (t ∷ rest) (decode (t ∷ rest))
at_tag tag t rest decode h e =
    let e' : tag ≡ t = ground arith in subst (λ k. Sound (k ∷ rest) (decode (k ∷ rest))) e' h

decode_address-Sound : (buf : List ℕ) → IsBytes buf → Sound buf (decode_address buf)
unfolding decode_address
decode_address-Sound [] hb = tt
decode_address-Sound (t ∷ rest) hb =
    let buf = t ∷ rest in
    Sound-if buf (t == addr_type_ipv4) _ _
      (at_tag addr_type_ipv4 t rest decode_ipv4 (decode_ipv4-Sound rest hb.1))
      (λ _.
        Sound-if buf (t == addr_type_ipv6) _ _
          (at_tag addr_type_ipv6 t rest decode_ipv6 (decode_ipv6-Sound rest hb.1))
          (λ _.
            Sound-if buf (t == addr_type_domain) _ _
              (at_tag addr_type_domain t rest decode_domain_case (domain-Sound rest hb.1))
              (λ _. tt)))

-- Whatever `DecodeAddress` accepts at the front of a byte string is the wire form of the address that
-- it returns: the bytes it consumes are within the input and are what `Append` writes for that
-- address, which keeps Go's sizes.
pub append-decode_address :
    (buf dst : List ℕ) (a : Address) (n : ℕ)
    → IsBytes buf
    → decode_address buf ≡ ok (a, n)
    → (append a dst ≡ ok (dst ++ take n buf)) × (n ≤ length buf) × (encoded_len a ≡ n) × IsAddress a
append-decode_address buf dst a n hb h =
    let d : Decoded buf a n = rw h at (decode_address-Sound buf hb) in
    (rw (append_lem, d.sends, d.written), d.within, d.size, d.typed)
