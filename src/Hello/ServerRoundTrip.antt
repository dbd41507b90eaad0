-- ===== src/Hello/ServerRoundTrip.antt =====
-- `DecodeServerHello` and `EncodeServerHello` undo one another.
use sing_ewp.Crypto.{Primitives, IsLawful}
use sing_ewp.Errors.{ok}
use sing_ewp.Crypto.Toy.{tag}
use sing_ewp.Hello.Layout.{IsServerHello, length-outer_mac, verify-outer_mac, verify_inv}
use sing_ewp.Hello.{
  ServerHello, server_body, server_mac_off, server_wire_len, encode_server_hello,
  decode_server_hello,
}
use sing_ewp.Kdf.{
  outer_mac_len, mlkem768_cipher_len, x25519_pub_len, handshake_nonce, outer_mac, verify_outer_mac,
}
use sing_ewp.Bytes.{
  put_uint32-IsArray, byte_at, put_uint32, uint32-put_uint32, byte_at_lem, IsByte, uint32, IsBytes,
  IsArray, put_uint32-uint32, drop-byte_at,
}
use sing_ewp.Prelude.{
  List, ◌++◌, ℕ, take, drop_three, drop, take_mid, arith, drop-append, drop_two, ◌∷◌, append_assoc,
  refl, [], length-append, ◌≡◌, take-append, length, length-take, All-drop, All-take, ◌+◌,
  length-drop, drop_past, ◌≤◌, take-append-drop, take_split, slice_split, sym, true,
}

-- The slices of a message whose parts have the right sizes.
record Slices (msg : List ℕ) (sh : ServerHello) (tag : List ℕ) : Type 0 where
  size : length msg ≡ server_wire_len
  body : take server_mac_off msg ≡ server_body sh
  mac : drop server_mac_off msg ≡ tag
  nonce : take handshake_nonce msg ≡ sh.nonce_echo
  classical : take x25519_pub_len (drop 12 msg) ≡ sh.classical_pub
  pq : take mlkem768_cipher_len (drop 44 msg) ≡ sh.pq_cipher
  time : take 4 (drop 1132 msg) ≡ put_uint32 sh.server_time
  last : byte_at 1136 msg ≡ sh.status

length-server_body :
    (sh : ServerHello) → IsServerHello sh → length (server_body sh) ≡ server_mac_off
unfolding server_body
length-server_body sh w =
    let ts = put_uint32 sh.server_time in
    omega (
      arith,
      length-append sh.nonce_echo (sh.classical_pub ++ (sh.pq_cipher ++ (ts ++ sh.status ∷ []))),
      length-append sh.classical_pub (sh.pq_cipher ++ (ts ++ sh.status ∷ [])),
      length-append sh.pq_cipher (ts ++ sh.status ∷ []),
      length-append ts (sh.status ∷ []),
      (put_uint32-IsArray sh.server_time).0,
      w.nonce_size.0,
      w.classical_size.0,
      w.pq_size.0,
    )

server-Slices :
    (sh : ServerHello) (tag : List ℕ)
    → IsServerHello sh
    → length tag ≡ outer_mac_len
    → Slices (server_body sh ++ tag) sh tag
server-Slices sh tag w ht =
    let hb = length-server_body sh w in
    let ts = put_uint32 sh.server_time in
    let tail = ts ++ (sh.status ∷ tag) in
    let flat : server_body sh ++ tag
        ≡ sh.nonce_echo ++ (sh.classical_pub ++ (sh.pq_cipher ++ tail)) =
      unfold server_body in simp append_assoc in
    record {
      size = omega (arith, length-append (server_body sh) tag, hb, ht);
      body = take-append server_mac_off (server_body sh) tag hb;
      mac = drop-append server_mac_off (server_body sh) tag hb;
      nonce = rw flat (take-append 12 sh.nonce_echo _ w.nonce_size.0);
      classical =
          rw flat
            (take_mid 12 32 sh.nonce_echo sh.classical_pub _ w.nonce_size.0 w.classical_size.0);
      pq =
          rw
            (
              flat,
              drop_two 12 32 44 sh.nonce_echo sh.classical_pub (sh.pq_cipher ++ tail) w.nonce_size.0
                  w.classical_size.0 refl,
            )
            (take-append 1088 sh.pq_cipher tail w.pq_size.0);
      time =
          rw
            (
              flat,
              drop_three 12 32 1088 1132 sh.nonce_echo sh.classical_pub sh.pq_cipher tail
                  w.nonce_size.0 w.classical_size.0 w.pq_size.0 refl,
            )
            (take-append 4 ts (sh.status ∷ tag) (put_uint32-IsArray sh.server_time).0);
      last = byte_at_lem 1136 (server_body sh ++ tag) tag sh.status (
          rw
            (
              flat,
              drop_past 12 1124 sh.nonce_echo (sh.classical_pub ++ (sh.pq_cipher ++ tail)) 1136
                  w.nonce_size.0 refl,
            )
            (drop_three 32 1088 4 1124 sh.classical_pub sh.pq_cipher ts (sh.status ∷ tag)
              w.classical_size.0 w.pq_size.0 (put_uint32-IsArray sh.server_time).0 refl));
    }

-- A client reads back from `EncodeServerHello` the ServerHello that the server wrote, under the same
-- UUID.
pub decode_server_hello-encode :
    (p : Primitives) (sh : ServerHello) (uuid : List ℕ)
    → IsLawful p
    → IsServerHello sh
    → decode_server_hello p (encode_server_hello p sh uuid) uuid ≡ ok sh
unfolding decode_server_hello encode_server_hello
decode_server_hello-encode p sh uuid lawful w =
    let tag = outer_mac p uuid (server_body sh) in
    let s = server-Slices sh tag w (length-outer_mac p lawful uuid (server_body sh)) in
    ground (
      arith,
      s.size,
      s.body,
      s.mac,
      s.nonce,
      s.classical,
      s.pq,
      s.time,
      s.last,
      verify-outer_mac p uuid (server_body sh),
      uint32-put_uint32 sh.server_time w.time_fits,
    )

slice-IsArray :
    (off n : ℕ) (msg : List ℕ)
    → IsBytes msg
    → off + n ≤ length msg
    → IsArray n (take n (drop off msg))
slice-IsArray off n msg hb h = (
  omega (arith, length-take n (drop off msg), length-drop off msg),
  All-take IsByte n (drop off msg) (All-drop IsByte off msg hb),
)

-- The ServerHello whose parts are cut from a message.
abbrev cut_server_hello : List ℕ → ServerHello
cut_server_hello msg = record {
  nonce_echo = take handshake_nonce msg;
  classical_pub = take x25519_pub_len (drop 12 msg);
  pq_cipher = take mlkem768_cipher_len (drop 44 msg);
  server_time = uint32 (take 4 (drop 1132 msg));
  status = byte_at 1136 msg;
}

server_body-cut :
    (msg : List ℕ)
    → IsBytes msg
    → length msg ≡ server_wire_len
    → server_body (cut_server_hello msg) ≡ take server_mac_off msg
unfolding server_body
server_body-cut msg hb h =
    let time : put_uint32 (uint32 (take 4 (drop 1132 msg))) ≡ take 4 (drop 1132 msg) =
      put_uint32-uint32 (take 4 (drop 1132 msg)) (slice-IsArray 1132 4 msg hb (omega arith)) in
    let last : byte_at 1136 msg ∷ [] ≡ take 1 (drop 1136 msg) =
      rw (drop-byte_at 1136 msg (omega arith)) (unfold take in refl) in
    rw
      (
        time,
        last,
        ← slice_split 1132 5 4 1 1136 msg refl refl,
        ← slice_split 44 1093 1088 5 1132 msg refl refl,
        ← slice_split 12 1125 32 1093 44 msg refl refl,
      )
      (sym (take_split 1137 12 1125 msg refl))

-- A ServerHello that the client accepts under a UUID is, byte for byte, the one that
-- `EncodeServerHello` writes for the returned value under that UUID.
pub encode-decode_server_hello :
    (p : Primitives) (msg uuid : List ℕ) (sh : ServerHello)
    → IsBytes msg
    → decode_server_hello p msg uuid ≡ ok sh
    → encode_server_hello p sh uuid ≡ msg
unfolding decode_server_hello encode_server_hello
encode-decode_server_hello p msg uuid sh hb h =
    let size : length msg ≡ server_wire_len = ground arith in
    let checked : verify_outer_mac p uuid (take server_mac_off msg) (drop server_mac_off msg)
        ≡ true =
      ground arith in
    let e : cut_server_hello msg ≡ sh = ground arith in
    rw (← e, server_body-cut msg hb size, verify_inv p uuid _ _ checked)
      (take-append-drop server_mac_off msg)
