-- ===== src/Errors.antt =====
-- The errors of the package as one data type, and Go's `(value, error)` as a result.
-- A wrapped error (`fmt.Errorf` with `%w`) is the sentinel that it wraps; where the source wraps
-- with a text only, the error has a constructor of its own.
use sing_ewp.Prelude.{ℕ, ◌≡◌, refl, ◌⊎◌, inl, inr, Bool, true, false}

pub data Error : Type 0 where
  -- address.go
  addr_too_short addr_type domain_len invalid_address : Error
  -- frame.go
  frame_too_large frame_too_short frame_type meta_too_large pad_too_large : Error
  aead_open counter_mismatch : Error
  -- handshake.go
  handshake_short handshake_long outer_mac_error aead_handshake bad_timestamp uuid_mismatch : Error
  bad_command unknown_uuid plaintext_layout : Error
  server_status : ℕ → Error
  -- anti_replay.go
  replayed : Error
  -- crypto/ecdh and crypto/mlkem calls that fail
  keygen peer_key key_agreement decapsulation cipher_size : Error
  -- the panic of a call on a nil key
  nil_key : Error
  -- io and crypto/rand
  eof unexpected_eof rand transport closed_pipe : Error
  -- securestream.go
  udp_meta_short : Error
  -- client.go
  uuid_length uuid_digit : Error
  -- server.go
  unexpected_frame : Error
  -- no error of the package: the fuel of a loop of this model ran out
  out_of_fuel : Error
  -- packetconn.go
  invalid_ip unsupported_addr : Error

-- The pair of a value and an error that a Go function returns: exactly one of them counts.
pub data Result {ℓ} (V : Type ℓ) : Type ℓ where
  err : Error → Result V
  ok : V → Result V

-- `if bad { return nil, e }`
abbrev pub reject : Bool → Error → Result (Unit {0})
reject true e = err e
reject false e = ok tt

infixl 5 ◌>>=◌ ◌>>◌
-- `v, e := r; if e != nil { return nil, e }`, and what follows.
abbrev pub ◌>>=◌ {ℓ ℓ'} : {V : Type ℓ} {W : Type ℓ'} (r : Result V) (next : V → Result W) → Result W
err e >>= next = err e
ok v >>= next = next v

abbrev pub ◌>>◌ {ℓ} : {W : Type ℓ} (r : Result (Unit {0})) (next : Result W) → Result W
err e >> next = err e
ok _ >> next = next

pub >>=-eq-ok {ℓ ℓ'} :
    {V : Type ℓ} {W : Type ℓ'} {w : W} (r : Result V) (next : V → Result W)
    → (r >>= next) ≡ ok w
    → (v : V) × (r ≡ ok v) × (next v ≡ ok w)
>>=-eq-ok (err e) next h = cc
>>=-eq-ok (ok v) next h = (v, refl, h)

pub reject-eq-ok {ℓ} :
    {B : Type ℓ} (t : Bool) (e : Error) (k : Result B) {b : B}
    → (reject t e >> k) ≡ ok b
    → (t ≡ false) × (k ≡ ok b)
reject-eq-ok true e k h = cc
reject-eq-ok false e k h = (refl, h)

pub Result-cases {ℓ} :
    {A : Type ℓ} (r : Result A) → ((a : A) × (r ≡ ok a)) ⊎ ((e : Error) × (r ≡ err e))
Result-cases (ok a) = inl (a, refl)
Result-cases (err e) = inr (e, refl)
