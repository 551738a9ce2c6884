-- ===== src/Prelude/Slices.antt =====
-- Laws of `take` and `drop`.
use Prim.Native.Nat.{ℕ, zero, suc, ◌+◌, ◌≤◌}
use mathlib.Core.Path.{◌≡◌, refl, ap}
use mathlib.Core.List.{List, [], ◌∷◌, ◌++◌}
use native.Mathlib.Omega.{arith}
use hwdb_opendpi.Prelude.Lists.{length, take, drop}

module _ {ℓ} {A : Type ℓ} where
  pub take-take_append :
      (n : ℕ) (xs ys : List A) → n ≤ length xs → take n (take n xs ++ ys) ≡ take n xs
  take-take_append zero xs ys h = refl
  take-take_append (suc n) [] ys h = absurd (omega arith)
  take-take_append (suc n) (x ∷ xs) ys h = ap (λ l. x ∷ l) (take-take_append n xs ys (omega arith))

  pub take-take_self : (n : ℕ) (xs : List A) → take n (take n xs) ≡ take n xs
  take-take_self zero xs = refl
  take-take_self (suc n) [] = refl
  take-take_self (suc n) (x ∷ xs) = ap (λ l. x ∷ l) (take-take_self n xs)

  pub drop-take_append :
      (n k : ℕ) (xs ys : List A) → n ≤ length xs → drop (n + k) (take n xs ++ ys) ≡ drop k ys
  drop-take_append zero k xs ys h = let e : 0 + k ≡ k = omega arith in rw e refl
  drop-take_append (suc n) k [] ys h = absurd (omega arith)
  drop-take_append (suc n) k (x ∷ xs) ys h =
      let e : suc n + k ≡ suc (n + k) = omega arith in
      rw e (drop-take_append n k xs ys (omega arith))

  pub take-add :
      (n k : ℕ) (xs ys : List A) → take n xs ++ (take k (drop n xs) ++ ys) ≡ take (n + k) xs ++ ys
  take-add zero k xs ys = let e : 0 + k ≡ k = omega arith in rw e refl
  take-add (suc n) zero [] ys = let e : suc n + 0 ≡ suc n = omega arith in rw e refl
  take-add (suc n) (suc k) [] ys =
      let e : suc n + suc k ≡ suc (suc (n + k)) = omega arith in rw e refl
  take-add (suc n) k (x ∷ xs) ys =
      let e : suc n + k ≡ suc (n + k) = omega arith in rw e (ap (λ l. x ∷ l) (take-add n k xs ys))

  pub take_all : (xs : List A) → take (length xs) xs ≡ xs
  take_all [] = refl
  take_all (x ∷ xs) = ap (λ l. x ∷ l) (take_all xs)

  pub drop_all : (n : ℕ) (xs : List A) → length xs ≤ n → drop n xs ≡ []
  drop_all zero [] h = refl
  drop_all zero (x ∷ xs) h = absurd (omega arith)
  drop_all (suc n) [] h = refl
  drop_all (suc n) (x ∷ xs) h = drop_all n xs (omega arith)
