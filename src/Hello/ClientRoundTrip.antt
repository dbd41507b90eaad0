-- ===== src/Hello/ClientRoundTrip.antt =====
-- `DecodeClientHello` reads what `EncodeClientHello` wrote.
use sing_ewp.Crypto.{IsLawful, Primitives}
use sing_ewp.Address.Wire.{on_wire}
use sing_ewp.Kdf.{uuid_len, outer_mac, handshake_aead_key}
use sing_ewp.Hello.{
  inner, parse_inner, ClientHello, seal_client_hello, fixed_header, parse_public,
  decode_client_hello, overhead, client_aad,
}
use sing_ewp.Address.{zero_address, decode_address}
use sing_ewp.Hello.Layout.{IsClientHello, length-outer_mac}
use sing_ewp.Bytes.{
  put_uint32-IsArray, byte_at_lem, put_uint32, put_uint16-IsArray, uint16-put_uint16, put_uint16,
  uint32-put_uint32, byte_at, uint16,
}
use sing_ewp.Prelude.{
  drop_two, drop-append, ◌+◌, take_mid, arith, refl, ◌++◌, take-append, take, length, ◌∷◌, List, ℕ,
  ◌≡◌, drop_split, length-append, drop, ◌^◌, ◌≤◌, ◌∙◌, replicate, ◌<◌, drop_three, append_assoc,
  sym,
}
use sing_ewp.Errors.{ok}

-- The ClientHello as it arrives: the part of the address that is sent.
abbrev pub arrived : ClientHello → ClientHello
arrived ch = record ch { address = on_wire ch.address }

-- The public fields alone.
abbrev pub public_part : ClientHello → ClientHello
public_part ch = record ch {
  timestamp = 0;
  uuid = replicate uuid_len 0;
  command = 0;
  address = zero_address;
}

pub length-inner :
    (ch : ClientHello) (addr pad : List ℕ)
    → IsClientHello ch
    → length (inner ch addr pad) ≡ 23 + length addr + length pad
unfolding inner
length-inner ch addr pad w =
    let ts = put_uint32 ch.timestamp in
    let tail = put_uint16 (length pad) ++ pad in
    omega (
      arith,
      length-append ts (ch.uuid ++ (ch.command ∷ (addr ++ tail))),
      length-append ch.uuid (ch.command ∷ (addr ++ tail)),
      length-append addr tail,
      length-append (put_uint16 (length pad)) pad,
      (put_uint32-IsArray ch.timestamp).0,
      (put_uint16-IsArray (length pad)).0,
      w.uuid_size.0,
    )

pub parse_inner-inner :
    (ch public : ClientHello) (addr pad : List ℕ)
    → IsClientHello ch
    → length pad < 2 ^ 16
    → 1 ≤ length addr
    → decode_address (addr ++ (put_uint16 (length pad) ++ pad))
      ≡ ok (on_wire ch.address, length addr)
    → parse_inner public (inner ch addr pad)
      ≡ ok (record public {
        timestamp = ch.timestamp;
        uuid = ch.uuid;
        command = ch.command;
        address = on_wire ch.address;
      })
unfolding parse_inner
parse_inner-inner ch public addr pad w hp ha hd =
    let ts = put_uint32 ch.timestamp in
    let pl = put_uint16 (length pad) in
    let tail = ch.command ∷ (addr ++ (pl ++ pad)) in
    let ht = (put_uint32-IsArray ch.timestamp).0 in
    let plain = inner ch addr pad in
    let from20 : drop 20 plain ≡ tail =
      unfold inner in drop_two 4 16 20 ts ch.uuid tail ht w.uuid_size.0 refl in
    let from21 : drop 21 plain ≡ addr ++ (pl ++ pad) =
      drop_split 21 20 1 plain refl ∙ rw from20 (unfold drop in refl) in
    let fromn : drop (21 + length addr) plain ≡ pl ++ pad =
      drop_split (21 + length addr) 21 (length addr) plain refl
      ∙ rw from21 (drop-append (length addr) addr (pl ++ pad) refl) in
    let size = length-inner ch addr pad w in
    let time : take 4 plain ≡ ts = unfold inner in take-append 4 ts (ch.uuid ++ tail) ht in
    let user : take 16 (drop 4 plain) ≡ ch.uuid =
      unfold inner in take_mid 4 16 ts ch.uuid tail ht w.uuid_size.0 in
    let cmd : byte_at 20 plain ≡ ch.command = byte_at_lem 20 plain _ ch.command from20 in
    let plen : take 2 (drop (21 + length addr) plain) ≡ pl =
      rw fromn (take-append 2 pl pad (put_uint16-IsArray (length pad)).0) in
    let plen' : uint16 (take 2 (drop (21 + length addr) plain)) ≡ length pad =
      rw plen (uint16-put_uint16 (length pad) hp) in
    let a : decode_address (drop 21 plain) ≡ ok (on_wire ch.address, length addr) = rw from21 hd in
    ground (arith, size, time, user, cmd, plen', a, uint32-put_uint32 ch.timestamp w.timestamp_fits)

length-client_aad :
    (ch : ClientHello) (n : ℕ) → IsClientHello ch → length (client_aad ch n) ≡ fixed_header
unfolding client_aad
length-client_aad ch n w =
    let ct = put_uint16 n in
    omega (
      arith,
      length-append ch.nonce (ch.classical_pub ++ (ch.pq_pub ++ ct)),
      length-append ch.classical_pub (ch.pq_pub ++ ct),
      length-append ch.pq_pub ct,
      (put_uint16-IsArray n).0,
      w.nonce_size.0,
      w.classical_size.0,
      w.pq_size.0,
    )

-- The slices of a message that begins with the additional data.
record Slices (msg : List ℕ) (ch : ClientHello) (n : ℕ) (aad : List ℕ) : Type 0 where
  public : parse_public msg ≡ public_part ch
  ct_len : uint16 (take 2 (drop 1228 msg)) ≡ n
  front : take fixed_header msg ≡ aad

client-Slices :
    (ch : ClientHello) (n : ℕ) (rest : List ℕ)
    → IsClientHello ch
    → n < 2 ^ 16
    → Slices (client_aad ch n ++ rest) ch n (client_aad ch n)
client-Slices ch n rest w hn =
    let ct = put_uint16 n in
    let msg = client_aad ch n ++ rest in
    let flat : msg ≡ ch.nonce ++ (ch.classical_pub ++ (ch.pq_pub ++ (ct ++ rest))) =
      unfold client_aad in simp append_assoc in
    let nonce : take 12 msg ≡ ch.nonce = rw flat (take-append 12 ch.nonce _ w.nonce_size.0) in
    let classical : take 32 (drop 12 msg) ≡ ch.classical_pub =
      rw flat (take_mid 12 32 ch.nonce ch.classical_pub _ w.nonce_size.0 w.classical_size.0) in
    let pq : take 1184 (drop 44 msg) ≡ ch.pq_pub =
      rw
        (
          flat,
          drop_two 12 32 44 ch.nonce ch.classical_pub (ch.pq_pub ++ (ct ++ rest)) w.nonce_size.0
              w.classical_size.0 refl,
        )
        (take-append 1184 ch.pq_pub (ct ++ rest) w.pq_size.0) in
    let len : take 2 (drop 1228 msg) ≡ ct =
      rw
        (
          flat,
          drop_three 12 32 1184 1228 ch.nonce ch.classical_pub ch.pq_pub (ct ++ rest) w.nonce_size.0
              w.classical_size.0 w.pq_size.0 refl,
        )
        (take-append 2 ct rest (put_uint16-IsArray n).0) in
    record {
      public = unfold parse_public in ground (arith, nonce, classical, pq);
      ct_len = rw len (uint16-put_uint16 n hn);
      front = take-append fixed_header (client_aad ch n) rest (length-client_aad ch n w);
    }

module _ (p : Primitives) (lawful : IsLawful p) where
  pub decode-seal :
      (ch : ClientHello) (plain msg : List ℕ)
      → IsClientHello ch
      → 1 ≤ length plain
      → seal_client_hello p ch plain ≡ ok msg
      → (decode_client_hello p msg ch.uuid ≡ parse_inner (public_part ch) plain)
        × (length msg ≡ 1262 + length plain)
  decode-seal ch plain msg w h1 h =
      let n = length plain + overhead in
      let aad = client_aad ch n in
      let key = handshake_aead_key p ch.uuid ch.nonce in
      let ct = p.seal key ch.nonce plain aad in
      let mac = outer_mac p ch.uuid (aad ++ ct) in
      let hn : n < 2 ^ 16 = unfold seal_client_hello in ground arith in
      let e : (aad ++ ct) ++ mac ≡ msg = unfold seal_client_hello in ground arith in
      let flat : msg ≡ aad ++ (ct ++ mac) = sym e ∙ append_assoc aad ct mac in
      let s : Slices msg ch n aad = rw flat (client-Slices ch n (ct ++ mac) w hn) in
      let ha = length-client_aad ch n w in
      let hct : length ct ≡ n = lawful.seal_size key ch.nonce plain aad in
      let size : length msg ≡ 1262 + length plain = rw flat (
        omega (
          arith,
          length-append aad (ct ++ mac),
          length-append ct mac,
          length-outer_mac p lawful ch.uuid (aad ++ ct),
          ha,
          hct,
        )) in
      let body : take n (drop fixed_header msg) ≡ ct =
        rw flat (take_mid fixed_header n aad ct mac ha hct) in
      let opened = lawful.unseal-seal key ch.nonce plain aad in
      (
        unfold decode_client_hello in
            ground (arith, s.public, s.ct_len, s.front, size, body, opened),
        size,
      )
