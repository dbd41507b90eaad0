-- ===== src/Address/Tests.antt =====
-- Runs of the address codec.
-- The name "go", port 443.
use sing_ewp.Bytes.{IsBytes, small-IsBytes, uint16}
use sing_ewp.Address.Sound.{append-decode_address}
use sing_ewp.Address.{encoded_len, decode_address, Address, append, zero_address}
use sing_ewp.Errors.{ok}
use sing_ewp.Address.RoundTrip.{decode_address-append}
use sing_ewp.Address.Wire.{on_wire, IsAddress}
use sing_ewp.Prelude.{◌≡◌, List, ◌≤◌, ◌++◌, refl, take, length, arith, ℕ, ◌∷◌, [], drop}

abbrev go_address : Address
go_address = record zero_address { domain = 103 ∷ 111 ∷ []; port = 443 }

abbrev go_wire : List ℕ
go_wire = 3 ∷ 2 ∷ 103 ∷ 111 ∷ 1 ∷ 187 ∷ []

go_address-IsAddress : IsAddress go_address
go_address-IsAddress = record {
  ip = tt;
  ip_port = omega arith;
  name = (omega arith, (omega arith, tt));
  name_port = omega arith;
}

append-go : append go_address (9 ∷ []) ≡ ok (9 ∷ go_wire)
unfolding append
append-go = refl

decode_address-go : decode_address (go_wire ++ (77 ∷ [])) ≡ ok (go_address, 6)
unfolding decode_address take uint16 drop
decode_address-go = refl

decode_address-append_example :
    (w : List ℕ) × (9 ∷ go_wire ≡ (9 ∷ []) ++ w)
    × (length w ≡ encoded_len go_address)
    × (decode_address (w ++ (77 ∷ [])) ≡ ok (on_wire go_address, encoded_len go_address))
decode_address-append_example =
    decode_address-append go_address (9 ∷ []) (9 ∷ go_wire) (77 ∷ []) go_address-IsAddress append-go

go_wire-IsBytes : IsBytes (go_wire ++ (77 ∷ []))
go_wire-IsBytes = small-IsBytes (go_wire ++ (77 ∷ [])) refl

append-decode_address_example :
    (append go_address [] ≡ ok (take 6 (go_wire ++ (77 ∷ []))))
    × (6 ≤ length (go_wire ++ (77 ∷ [])))
    × (encoded_len go_address ≡ 6)
    × IsAddress go_address
append-decode_address_example =
    append-decode_address (go_wire ++ (77 ∷ [])) [] go_address 6 go_wire-IsBytes decode_address-go
