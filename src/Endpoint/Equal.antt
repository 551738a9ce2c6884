-- ===== src/Endpoint/Equal.antt =====
-- endpoint.c: what `memeq` and `endpoint_equal` decide.
use hwdb_opendpi.Prelude.{
  ℕ, zero, suc, ◌≤◌, ◌≡◌, refl, ◌↔◌, true, ◌==◌, List, [], ◌∷◌, arith, length, take,
}
use hwdb_opendpi.Endpoint.{RpcEndpoint, memeq, endpoint_equal, sockaddr_size}

memeq→take : (s t : List ℕ) (n : ℕ) → memeq s t n ≡ true → take n s ≡ take n t
unfolding memeq
memeq→take s t zero h = refl
memeq→take [] t (suc n) h = ground arith
memeq→take (x ∷ s) [] (suc n) h = ground arith
memeq→take (x ∷ s) (y ∷ t) (suc n) h = ground (arith, memeq→take s t n)

take→memeq :
    (s t : List ℕ) (n : ℕ) → n ≤ length s → n ≤ length t → take n s ≡ take n t → memeq s t n ≡ true
unfolding memeq
take→memeq s t zero hs ht e = refl
take→memeq [] t (suc n) hs ht e = absurd (omega arith)
take→memeq (x ∷ s) [] (suc n) hs ht e = absurd (omega arith)
take→memeq (x ∷ s) (y ∷ t) (suc n) hs ht e = ground (arith, take→memeq s t n)

-- On two blocks of at least `n` bytes, `memeq` answers 1 exactly when their first `n` bytes agree.
memeq_iff :
    (s t : List ℕ) (n : ℕ)
    → n ≤ length s
    → n ≤ length t
    → (memeq s t n ≡ true) ↔ (take n s ≡ take n t)
memeq_iff s t n hs ht = (memeq→take s t n, take→memeq s t n hs ht)

-- `endpoint_equal` looks at the subports alone: for complete addresses it answers 1 exactly when
-- the subports agree, whatever the two addresses are.
pub endpoint_equal-subport :
    (a b : RpcEndpoint)
    → length a.addr ≡ sockaddr_size
    → (endpoint_equal a b ≡ true) ↔ (a.subport ≡ b.subport)
unfolding endpoint_equal
endpoint_equal-subport a b h =
    let same = take→memeq a.addr a.addr sockaddr_size (omega arith) (omega arith) refl in
    (λ e. ground (arith, same), λ e. ground (arith, same))

pub endpoint_equal-== :
    (a b : RpcEndpoint)
    → length a.addr ≡ sockaddr_size
    → endpoint_equal a b ≡ a.subport == b.subport
unfolding endpoint_equal
endpoint_equal-== a b h =
    rw (take→memeq a.addr a.addr sockaddr_size (omega arith) (omega arith) refl)
