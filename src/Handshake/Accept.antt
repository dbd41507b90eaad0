-- ===== src/Handshake/Accept.antt =====
-- When the server takes a ClientHello for authentic.
use sing_ewp.Hello.ClientCodec.{encode_hello_inv}
use sing_ewp.Crypto.Random.{Reader, FillsBuffer}
use sing_ewp.Address.Wire.{wire}
use sing_ewp.Handshake.{authenticate, abs_diff, UuidLookup}
use sing_ewp.Errors.{
  ok, bad_command, >>=-eq-ok, reject-eq-ok, handshake_short, uuid_mismatch, bad_timestamp,
}
use sing_ewp.Crypto.{IsLawful, Primitives}
use sing_ewp.Hello.Layout.{length-outer_mac, verify-outer_mac}
use sing_ewp.Hello.{
  command_tcp, command_udp, decode_client_hello, client_aad, ClientHello, seal_client_hello,
  overhead, inner, encode_client_hello,
}
use sing_ewp.Kdf.{
  handshake_aead_key, outer_mac_len, verify_outer_mac, outer_mac, handshake_timestamp_window,
}
use sing_ewp.Prelude.{
  ◌+◌, ◌≤◌, take-append, length-append, List, arith, drop-append, true, ◌++◌, drop, refl, ◌≡◌, ◌-◌,
  take, ℕ, ◌↔◌, length, ◌⊎◌, ◌&&◌, bytes_eq_iff, ltb, ◌==◌, not, subst, bytes_eq_refl, bytes_eq,
}

-- A message without the MAC at its end, and the MAC.
abbrev pub unsigned : List ℕ → List ℕ
unsigned msg = take (length msg - outer_mac_len) msg

abbrev pub signature : List ℕ → List ℕ
signature msg = drop (length msg - outer_mac_len) msg

-- An encoded ClientHello carries the outer MAC of its user.
pub seal-signature :
    (p : Primitives) (ch : ClientHello) (plain msg : List ℕ)
    → IsLawful p
    → seal_client_hello p ch plain ≡ ok msg
    → (outer_mac_len ≤ length msg)
      × (verify_outer_mac p ch.uuid (unsigned msg) (signature msg) ≡ true)
seal-signature p ch plain msg lawful h =
    let aad = client_aad ch (length plain + overhead) in
    let out = aad ++ p.seal (handshake_aead_key p ch.uuid ch.nonce) ch.nonce plain aad in
    let mac = outer_mac p ch.uuid out in
    let e : out ++ mac ≡ msg = unfold seal_client_hello in ground arith in
    let hm = length-outer_mac p lawful ch.uuid out in
    let size : length msg ≡ length out + 16 = rw (← e) (omega (arith, length-append out mac, hm)) in
    let cut : length msg - outer_mac_len ≡ length out = omega (arith, size) in
    let front : unsigned msg ≡ out = rw (cut, ← e) (take-append (length out) out mac refl) in
    let back : signature msg ≡ mac = rw (cut, ← e) (drop-append (length out) out mac refl) in
    (omega (arith, size), rw (front, back) (verify-outer_mac p ch.uuid out))

pub encode-signature :
    (p : Primitives) (lawful : IsLawful p) (draw_len draw_pad : Reader)
    (fills : FillsBuffer draw_pad) (ch : ClientHello) (msg : List ℕ)
    → encode_client_hello p draw_len draw_pad ch ≡ ok msg
    → (outer_mac_len ≤ length msg)
      × (verify_outer_mac p ch.uuid (unsigned msg) (signature msg) ≡ true)
encode-signature p lawful draw_len draw_pad fills ch msg h =
    let parts = encode_hello_inv p lawful draw_len draw_pad fills ch msg h in
    seal-signature p ch (inner ch (wire ch.address) parts.pad) msg lawful parts.sealed

-- What an accepted ClientHello has passed.
pub record Authentic (p : Primitives) (find_uuid : UuidLookup) (now : ℕ) (msg : List ℕ)
    (ch : ClientHello) : Type 0 where
  pub long_enough : outer_mac_len ≤ length msg
  pub user : find_uuid (unsigned msg) (signature msg) ≡ ok ch.uuid
  pub decoded : decode_client_hello p msg ch.uuid ≡ ok ch
  pub known : (ch.command ≡ command_tcp) ⊎ (ch.command ≡ command_udp)
  pub in_window : abs_diff ch.timestamp now ≤ handshake_timestamp_window

authenticate-Authentic :
    (p : Primitives) (find_uuid : UuidLookup) (now : ℕ) (msg : List ℕ) (ch : ClientHello)
    → authenticate p find_uuid now msg ≡ ok ch
    → Authentic p find_uuid now msg ch
unfolding authenticate
authenticate-Authentic p find_uuid now msg ch h =
    let (long, h0) = reject-eq-ok (ltb (length msg) outer_mac_len) handshake_short _ h in
    let (uuid, eu, h1) = >>=-eq-ok (find_uuid (unsigned msg) (signature msg)) _ h0 in
    let (ch', ed, h2) = >>=-eq-ok (decode_client_hello p msg uuid) _ h1 in
    let (eq, h3) = reject-eq-ok (not (bytes_eq ch'.uuid uuid)) uuid_mismatch _ h2 in
    let (good, h4) =
      reject-eq-ok (not (ch'.command == command_tcp) && not (ch'.command == command_udp))
        bad_command _ h3 in
    let (near, h5) =
      reject-eq-ok (ltb handshake_timestamp_window (abs_diff ch'.timestamp now)) bad_timestamp _
        h4 in
    let same : ch' ≡ ch = ground (arith, h5) in
    let owner : ch'.uuid ≡ uuid = ground (arith, bytes_eq_iff ch'.uuid uuid, eq) in
    subst (Authentic p find_uuid now msg) same (record {
      long_enough = ground (arith, long);
      user = rw owner eu;
      decoded = rw owner ed;
      known = ground (arith, good);
      in_window = ground (arith, near);
    })

pub Authentic-authenticate :
    (p : Primitives) (find_uuid : UuidLookup) (now : ℕ) (msg : List ℕ) (ch : ClientHello)
    → Authentic p find_uuid now msg ch
    → authenticate p find_uuid now msg ≡ ok ch
unfolding authenticate
Authentic-authenticate p find_uuid now msg ch a =
    ground (arith, a.long_enough, a.user, a.decoded, a.known, a.in_window, bytes_eq_refl ch.uuid)

-- The server takes a ClientHello for authentic exactly if the lookup gives its UUID for its MAC, it
-- decodes under that UUID with the same UUID inside, its command is TCP or UDP, and its timestamp is
-- at most 120 seconds from the server's clock.
pub authenticate_iff :
    (p : Primitives) (find_uuid : UuidLookup) (now : ℕ) (msg : List ℕ) (ch : ClientHello)
    → (authenticate p find_uuid now msg ≡ ok ch) ↔ Authentic p find_uuid now msg ch
authenticate_iff p find_uuid now msg ch =
    (authenticate-Authentic p find_uuid now msg ch, Authentic-authenticate p find_uuid now msg ch)
