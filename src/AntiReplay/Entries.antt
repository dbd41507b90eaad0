-- ===== src/AntiReplay/Entries.antt =====
-- The map operations of the cache.
use sing_ewp.Prelude.{
  bytes_eq, bytes_eq_iff, refl, none, leb, ℕ, if◌then◌else◌, [], ◌∷◌, ◌≡◌, List, some, false, arith,
  subst, Bool-cases, inl, Option, inr,
}
use sing_ewp.AntiReplay.{insert, gc_locked, lookup, Entries}

pub lookup-insert :
    (k j : List ℕ) (e : ℕ) (m : Entries)
    → lookup j (insert k e m) ≡ (if bytes_eq k j then some e else lookup j m)
unfolding lookup insert
lookup-insert k j e [] = refl
lookup-insert k j e ((i, d) ∷ m) =
    ground (arith, lookup-insert k j e m, bytes_eq_iff i k, bytes_eq_iff i j, bytes_eq_iff k j)

-- No two entries of a Go map have the same key.
abbrev pub Fresh : List ℕ → Entries → Type 0
Fresh k [] = Unit
Fresh k ((j, e) ∷ m) = (bytes_eq j k ≡ false) × Fresh k m

abbrev pub Distinct : Entries → Type 0
Distinct [] = Unit
Distinct ((k, e) ∷ m) = Fresh k m × Distinct m

Fresh-lookup : (k : List ℕ) (m : Entries) → Fresh k m → lookup k m ≡ none
unfolding lookup
Fresh-lookup k [] h = refl
Fresh-lookup k ((j, e) ∷ m) h = ground (arith, Fresh-lookup k m h.1)

-- What is left of an entry at a time.
abbrev pub unexpired : ℕ → Option ℕ → Option ℕ
unexpired now none = none
unexpired now (some e) = if leb e now then none else some e

-- The sweep removes exactly the expired entries.
pub lookup-gc_locked :
    (now : ℕ) (k : List ℕ) (m : Entries)
    → Distinct m
    → lookup k (gc_locked now m) ≡ unexpired now (lookup k m)
unfolding lookup gc_locked
lookup-gc_locked now k [] d = refl
lookup-gc_locked now k ((j, e) ∷ m) d = elim (Bool-cases (bytes_eq j k)) [
  | inl same ↦
      let jk : j ≡ k = (bytes_eq_iff j k).0 same in
      ground (arith, lookup-gc_locked now k m d.1, Fresh-lookup k m (subst (λ i. Fresh i m) jk d.0))
  | inr other ↦ ground (arith, lookup-gc_locked now k m d.1)
]

Fresh-insert :
    (k j : List ℕ) (e : ℕ) (m : Entries) → bytes_eq k j ≡ false → Fresh j m → Fresh j (insert k e m)
unfolding insert
Fresh-insert k j e [] n h = (n, tt)
Fresh-insert k j e ((i, d) ∷ m) n h = elim (Bool-cases (bytes_eq i k)) [
  | inl same ↦ rw same (n, h.1)
  | inr other ↦ rw other (h.0, Fresh-insert k j e m n h.1)
]

pub Distinct-insert : (k : List ℕ) (e : ℕ) (m : Entries) → Distinct m → Distinct (insert k e m)
unfolding insert
Distinct-insert k e [] d = (tt, tt)
Distinct-insert k e ((i, x) ∷ m) d = elim (Bool-cases (bytes_eq i k)) [
  | inl same ↦
      let ik : i ≡ k = (bytes_eq_iff i k).0 same in rw same (subst (λ j. Fresh j m) ik d.0, d.1)
  | inr other ↦
      let ki : bytes_eq k i ≡ false = ground (arith, bytes_eq_iff i k, bytes_eq_iff k i) in
      rw other (Fresh-insert k i e m ki d.0, Distinct-insert k e m d.1)
]

Fresh-gc_locked : (now : ℕ) (j : List ℕ) (m : Entries) → Fresh j m → Fresh j (gc_locked now m)
unfolding gc_locked
Fresh-gc_locked now j [] h = tt
Fresh-gc_locked now j ((i, e) ∷ m) h = elim (Bool-cases (leb e now)) [
  | inl old ↦ rw old (Fresh-gc_locked now j m h.1)
  | inr new ↦ rw new (h.0, Fresh-gc_locked now j m h.1)
]

pub Distinct-gc_locked : (now : ℕ) (m : Entries) → Distinct m → Distinct (gc_locked now m)
unfolding gc_locked
Distinct-gc_locked now [] d = tt
Distinct-gc_locked now ((i, e) ∷ m) d = elim (Bool-cases (leb e now)) [
  | inl old ↦ rw old (Distinct-gc_locked now m d.1)
  | inr new ↦ rw new (Fresh-gc_locked now i m d.0, Distinct-gc_locked now m d.1)
]
