-- ===== src/Stable/Hash.antt =====
-- stable.c: for which names `hash` is an index of the table.
use hwdb_opendpi.Prelude.{
  ℕ, zero, suc, ◌+◌, ◌*◌, ◌%◌, ◌^◌, ◌<◌, ◌≤◌, ◌≡◌, refl, some, [], ◌∷◌, arith, length, All,
}
use hwdb_opendpi.Stable.{Name, stable_size, hash_loop, hash}

-- The largest sum that `k` more characters can make of `m`.
grown : ℕ → ℕ → ℕ
grown m zero = m
grown m (suc k) = grown (7 * m + 127) k

grown_mono : (m n k : ℕ) → m ≤ n → grown m k ≤ grown n k
unfolding grown
grown_mono m n zero h = h
grown_mono m n (suc k) h = grown_mono (7 * m + 127) (7 * n + 127) k (omega arith)

grown_le : (m k : ℕ) → m ≤ grown m k
unfolding grown
grown_le m zero = omega arith
grown_le m (suc k) = omega (arith, grown_le (7 * m + 127) k)

hash_loop-le :
    (ans : ℕ) (s : Name)
    → All (λ c. c < 128) s
    → grown ans (length s) < 2 ^ 31
    → hash_loop ans s ≤ grown ans (length s)
unfolding hash_loop grown
hash_loop-le ans [] a b = omega arith
hash_loop-le ans (c ∷ s) a b =
    let fits : 7 * ans + 127 < 2 ^ 31 = omega (arith, grown_le (7 * ans + 127) (length s)) in
    let next : (7 * ans + c) % 2 ^ 32 ≤ 7 * ans + 127 = omega arith in
    ground (
      arith,
      grown_mono ((7 * ans + c) % 2 ^ 32) (7 * ans + 127) (length s),
      hash_loop-le ((7 * ans + c) % 2 ^ 32) s a.1,
    )

grown_more : (m j k : ℕ) → j ≤ k → grown m j ≤ grown m k
unfolding grown
grown_more m zero k h = grown_le m k
grown_more m (suc j) zero h = absurd (omega arith)
grown_more m (suc j) (suc k) h = grown_more (7 * m + 127) j k (omega arith)

grown_nine : grown 0 9 ≡ 854151327
unfolding grown
grown_nine = refl

-- A name of at most nine ASCII characters hashes to a bucket of the table.
hash_short :
    (s : Name)
    → All (λ c. c < 128) s
    → length s ≤ 9
    → (i : ℕ) × (hash s ≡ some i) × (i < stable_size)
unfolding hash
hash_short s a short =
    let small : hash_loop 0 s < 2 ^ 31 = omega (
      arith,
      grown_nine,
      grown_more 0 (length s) 9 short,
      hash_loop-le 0 s a (omega (arith, grown_nine, grown_more 0 (length s) 9 short)),
    ) in
    (hash_loop 0 s % stable_size, ground (arith, small), omega arith)
