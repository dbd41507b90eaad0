-- ===== src/Frame/Read.antt =====
-- Reads from a byte reader whose content is known.
use sing_ewp.Errors.{ok}
use sing_ewp.Frame.{read_full, discard}
use sing_ewp.Prelude.{
  take, drop, ◌≡◌, refl, take-append, suc, length-append, take-append-drop, ◌∷◌, length-take, zero,
  [], arith, ◌++◌, drop-append, ℕ, length, List,
}

pub read_full-append :
    (n : ℕ) (xs ys : List ℕ) → length xs ≡ n → read_full n (xs ++ ys) ≡ ok (xs, ys)
unfolding read_full
read_full-append n xs ys h =
    ground (arith, length-append xs ys, take-append n xs ys h, drop-append n xs ys h)

pub discard-append : (n : ℕ) (xs ys : List ℕ) → length xs ≡ n → discard n (xs ++ ys) ≡ ok ys
unfolding discard
discard-append zero [] ys h = refl
discard-append zero (x ∷ xs) ys h = absurd (omega arith)
discard-append (suc n) xs ys h = ground (arith, length-append xs ys, drop-append (suc n) xs ys h)

-- What a read that succeeds has read.
pub read_full_inv :
    (n : ℕ) (src xs ys : List ℕ)
    → read_full n src ≡ ok (xs, ys)
    → (src ≡ xs ++ ys) × (length xs ≡ n) × (xs ≡ take n src) × (ys ≡ drop n src)
unfolding read_full
read_full_inv n src xs ys h = ground (arith, take-append-drop n src, length-take n src)

pub discard_inv :
    (n : ℕ) (src ys : List ℕ)
    → discard n src ≡ ok ys
    → (src ≡ take n src ++ ys) × (length (take n src) ≡ n) × (ys ≡ drop n src)
unfolding discard
discard_inv zero src ys h = unfold take drop in ground arith
discard_inv (suc n) src ys h = ground (arith, take-append-drop (suc n) src, length-take (suc n) src)
