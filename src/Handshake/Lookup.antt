-- ===== src/Handshake/Lookup.antt =====
-- Which user `MakeUUIDLookup` finds.
use sing_ewp.Handshake.{make_uuid_lookup}
use sing_ewp.Crypto.{Primitives}
use sing_ewp.Kdf.{verify_outer_mac}
use sing_ewp.Errors.{ok, unknown_uuid, Result, err}
use sing_ewp.Prelude.{◌++◌, ◌≡◌, inr, refl, Bool-cases, false, All, ℕ, List, inl, ap, ◌∷◌, [], true}

-- The user that a message is from: the first of the list whose MAC it carries.
pub record FirstMatch (p : Primitives) (uuids : List (List ℕ)) (msg mac u : List ℕ) : Type 0 where
  pub before : List (List ℕ)
  pub after : List (List ℕ)
  pub listed : uuids ≡ before ++ (u ∷ after)
  pub earlier_fail : All (λ v. verify_outer_mac p v msg mac ≡ false) before
  pub verifies : verify_outer_mac p u msg mac ≡ true

-- What the lookup answers: the first match, or that no UUID of the list matches.
abbrev pub Found : (p : Primitives) → List (List ℕ) → List ℕ → List ℕ → Result (List ℕ) → Type 0
Found p uuids msg mac (ok u) = FirstMatch p uuids msg mac u
Found p uuids msg mac (err e) =
    (e ≡ unknown_uuid) × All (λ v. verify_outer_mac p v msg mac ≡ false) uuids

Found-skip :
    (p : Primitives) (u : List ℕ) (uuids : List (List ℕ)) (msg mac : List ℕ) (r : Result (List ℕ))
    → verify_outer_mac p u msg mac ≡ false
    → Found p uuids msg mac r
    → Found p (u ∷ uuids) msg mac r
Found-skip p u uuids msg mac (ok v) h f = record {
  before = u ∷ f.before;
  after = f.after;
  listed = ap (λ l. u ∷ l) f.listed;
  earlier_fail = (h, f.earlier_fail);
  verifies = f.verifies;
}
Found-skip p u uuids msg mac (err e) h f = (f.0, (h, f.1))

-- For every list of users the lookup returns the first UUID whose outer MAC over the message is the
-- given one, and ErrUnknownUUID exactly if no UUID of the list has it.
pub make_uuid_lookup_first :
    (p : Primitives) (uuids : List (List ℕ)) (msg mac : List ℕ)
    → Found p uuids msg mac (make_uuid_lookup p uuids msg mac)
unfolding make_uuid_lookup
make_uuid_lookup_first p [] msg mac = (refl, tt)
make_uuid_lookup_first p (u ∷ uuids) msg mac = elim (Bool-cases (verify_outer_mac p u msg mac)) [
  | inl h ↦
      rw h (record { before = []; after = uuids; listed = refl; earlier_fail = tt; verifies = h })
  | inr h ↦ rw h (Found-skip p u uuids msg mac _ h (make_uuid_lookup_first p uuids msg mac))
]

-- A user is found behind users whose MACs do not match.
pub make_uuid_lookup_finds :
    (p : Primitives) (before after : List (List ℕ)) (msg mac u : List ℕ)
    → All (λ v. verify_outer_mac p v msg mac ≡ false) before
    → verify_outer_mac p u msg mac ≡ true
    → make_uuid_lookup p (before ++ (u ∷ after)) msg mac ≡ ok u
unfolding make_uuid_lookup
make_uuid_lookup_finds p [] after msg mac u h v = rw v
make_uuid_lookup_finds p (w ∷ before) after msg mac u h v =
    rw (h.0) (make_uuid_lookup_finds p before after msg mac u h.1 v)
