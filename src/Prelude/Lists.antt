-- ===== src/Prelude/Lists.antt =====
-- Lists measured and cut by native numbers, under the library's names.
-- `take` and `drop` stay shut: the sizes of the protocol are large numerals.
use Prim.Native.Nat.{ℕ, zero, suc, ◌+◌, ◌-◌, min}
use mathlib.Core.Path.{◌≡◌, refl, ap}
use mathlib.Core.List.{List, [], ◌∷◌, ◌++◌}
use native.Mathlib.Omega.{arith}

module _ {ℓ} {A : Type ℓ} where
  abbrev pub length : List A → ℕ
  length [] = 0
  length (x ∷ xs) = suc (length xs)

  pub length-append : (xs ys : List A) → length (xs ++ ys) ≡ length xs + length ys
  length-append [] ys = omega arith
  length-append (x ∷ xs) ys = omega (arith, length-append xs ys)

  unfoldable pub take : ℕ → List A → List A
  take zero xs = []
  take (suc n) [] = []
  take (suc n) (x ∷ xs) = x ∷ take n xs

  unfoldable pub drop : ℕ → List A → List A
  drop zero xs = xs
  drop (suc n) [] = []
  drop (suc n) (x ∷ xs) = drop n xs

  unfoldable pub replicate : ℕ → A → List A
  replicate zero a = []
  replicate (suc n) a = a ∷ replicate n a

  pub length-replicate : (n : ℕ) (a : A) → length (replicate n a) ≡ n
  unfolding replicate
  length-replicate zero a = refl
  length-replicate (suc n) a = ap suc (length-replicate n a)

  pub length-take : (n : ℕ) (xs : List A) → length (take n xs) ≡ min n (length xs)
  unfolding take
  length-take zero xs = omega arith
  length-take (suc n) [] = omega arith
  length-take (suc n) (x ∷ xs) = omega (arith, length-take n xs)

  pub length-drop : (n : ℕ) (xs : List A) → length (drop n xs) ≡ length xs - n
  unfolding drop
  length-drop zero xs = omega arith
  length-drop (suc n) [] = omega arith
  length-drop (suc n) (x ∷ xs) = omega (arith, length-drop n xs)

  pub take-append-drop : (n : ℕ) (xs : List A) → take n xs ++ drop n xs ≡ xs
  unfolding take drop
  take-append-drop zero xs = refl
  take-append-drop (suc n) [] = refl
  take-append-drop (suc n) (x ∷ xs) = rw (take-append-drop n xs)

  pub take-append : (n : ℕ) (xs ys : List A) → length xs ≡ n → take n (xs ++ ys) ≡ xs
  unfolding take
  take-append zero [] ys h = refl
  take-append zero (x ∷ xs) ys h = absurd (omega arith)
  take-append (suc n) [] ys h = absurd (omega arith)
  take-append (suc n) (x ∷ xs) ys h = rw (take-append n xs ys (omega arith))

  -- Dropping past a whole prefix goes on in what follows it.
  pub drop_past :
      (n k : ℕ) (xs ys : List A) (m : ℕ) → length xs ≡ n → m ≡ n + k → drop m (xs ++ ys) ≡ drop k ys
  unfolding drop
  drop_past zero k [] ys m h e = let e' : m ≡ k = omega arith in rw e'
  drop_past zero k (x ∷ xs) ys m h e = absurd (omega arith)
  drop_past (suc n) k [] ys m h e = absurd (omega arith)
  drop_past (suc n) k (x ∷ xs) ys zero h e = absurd (omega arith)
  drop_past (suc n) k (x ∷ xs) ys (suc m) h e = drop_past n k xs ys m (omega arith) (omega arith)

  pub drop-append : (n : ℕ) (xs ys : List A) → length xs ≡ n → drop n (xs ++ ys) ≡ ys
  unfolding drop
  drop-append n xs ys h = drop_past n zero xs ys n h (omega arith)

  -- A slice of known place and size.
  pub take_mid :
      (off n : ℕ) (pre xs post : List A)
      → length pre ≡ off
      → length xs ≡ n
      → take n (drop off (pre ++ (xs ++ post))) ≡ xs
  take_mid off n pre xs post hp hx =
      rw (drop-append off pre (xs ++ post) hp) (take-append n xs post hx)

  pub drop_two :
      (n m k : ℕ) (xs ys zs : List A)
      → length xs ≡ n
      → length ys ≡ m
      → k ≡ n + m
      → drop k (xs ++ (ys ++ zs)) ≡ zs
  drop_two n m k xs ys zs hx hy e = rw (drop_past n m xs (ys ++ zs) k hx e) (drop-append m ys zs hy)

  pub drop_three :
      (n m l k : ℕ) (xs ys zs ws : List A)
      → length xs ≡ n
      → length ys ≡ m
      → length zs ≡ l
      → k ≡ n + (m + l)
      → drop k (xs ++ (ys ++ (zs ++ ws))) ≡ ws
  drop_three n m l k xs ys zs ws hx hy hz e =
      rw (drop_past n (m + l) xs (ys ++ (zs ++ ws)) k hx e)
        (drop_two m l (m + l) ys zs ws hy hz refl)

  pub take_split :
      (m a b : ℕ) (xs : List A) → m ≡ a + b → take m xs ≡ take a xs ++ take b (drop a xs)
  unfolding take drop
  take_split m zero b xs e = let e' : m ≡ b = omega arith in rw e'
  take_split m (suc a) zero [] e = let e' : m ≡ suc a = omega arith in rw e'
  take_split zero (suc a) b xs e = absurd (omega arith)
  take_split (suc m) (suc a) (suc b) [] e = refl
  take_split (suc m) (suc a) b (x ∷ xs) e = rw (take_split m a b xs (omega arith))

  pub drop_split : (m a b : ℕ) (xs : List A) → m ≡ a + b → drop m xs ≡ drop b (drop a xs)
  unfolding drop
  drop_split m zero b xs e = let e' : m ≡ b = omega arith in rw e'
  drop_split m (suc a) zero [] e = let e' : m ≡ suc a = omega arith in rw e'
  drop_split zero (suc a) b xs e = absurd (omega arith)
  drop_split (suc m) (suc a) (suc b) [] e = refl
  drop_split (suc m) (suc a) b (x ∷ xs) e = drop_split m a b xs (omega arith)

  -- A slice is a slice and the slice behind it.
  pub slice_split :
      (o m a b n : ℕ) (xs : List A)
      → m ≡ a + b
      → n ≡ o + a
      → take m (drop o xs) ≡ take a (drop o xs) ++ take b (drop n xs)
  slice_split o m a b n xs e f = rw (drop_split n o a xs f) (take_split m a b (drop o xs) e)

  abbrev pub All {κ} : (A → Type κ) → List A → Type κ
  All P [] = Unit {κ}
  All P (x ∷ xs) = P x × All P xs

module _ {ℓ κ} {A : Type ℓ} (P : A → Type κ) where
  pub All-append : (xs ys : List A) → All P xs → All P ys → All P (xs ++ ys)
  All-append [] ys hx hy = hy
  All-append (x ∷ xs) ys hx hy = (hx.0, All-append xs ys hx.1 hy)

  pub All-prefix : (xs ys : List A) → All P (xs ++ ys) → All P xs
  All-prefix [] ys h = tt
  All-prefix (x ∷ xs) ys h = (h.0, All-prefix xs ys h.1)

  pub All-replicate : (n : ℕ) (a : A) → P a → All P (replicate n a)
  unfolding replicate
  All-replicate zero a h = tt
  All-replicate (suc n) a h = (h, All-replicate n a h)

  pub All-take : (n : ℕ) (xs : List A) → All P xs → All P (take n xs)
  unfolding take
  All-take zero xs h = tt
  All-take (suc n) [] h = tt
  All-take (suc n) (x ∷ xs) h = (h.0, All-take n xs h.1)

  pub All-drop : (n : ℕ) (xs : List A) → All P xs → All P (drop n xs)
  unfolding drop
  All-drop zero xs h = h
  All-drop (suc n) [] h = tt
  All-drop (suc n) (x ∷ xs) h = All-drop n xs h.1
