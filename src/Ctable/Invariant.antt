-- ===== src/Ctable/Invariant.antt =====
-- ctable.c: the well-formed tables, and that insertion, removal and change of a record keep them.
use hwdb_opendpi.Prelude.{
  ℕ, ◌+◌, ◌<◌, ◌≤◌, ◌≡◌, ◌≢◌, refl, List, [], ◌∷◌, arith, length, get_or, set, All, get_or-set_self,
  get_or-set_ne, length-set, get_or-replicate, length-replicate, ==_of_eq, ==_of_ne,
}
use native.Mathlib.Decide.{ℕ_discrete}
use hwdb_opendpi.Endpoint.{RpcEndpoint, endpoint_hash, sockaddr_size}
use hwdb_opendpi.Endpoint.Hash.{endpoint_hash-lt}
use hwdb_opendpi.Crecord.{CRecord}
use hwdb_opendpi.Ctable.Holds.{unlink-All, assign-All}
use hwdb_opendpi.Ctable.{
  Table, ctable_size, ctable_init, bucket, ctable_insert, ctable_remove, unlink, assign, store,
}

abbrev pub Absent : ℕ → List CRecord → Type 0
Absent p [] = Unit {0}
Absent p (r ∷ rs) = (p ≢ r.self) × Absent p rs

-- The records of a chain stand at different addresses.
abbrev pub Distinct : List CRecord → Type 0
Distinct [] = Unit {0}
Distinct (r ∷ rs) = Absent r.self rs × Distinct rs

-- A record in bucket `i`, at an address below `brk`.
pub record InBucket (brk i : ℕ) (cr : CRecord) : Type 0 where
  pub home : endpoint_hash cr.ep ctable_size ≡ i
  pub allocated : cr.self < brk
  pub whole : length cr.ep.addr ≡ sockaddr_size

pub record IsTable (brk : ℕ) (t : Table) : Type 0 where
  pub wide : length t ≡ ctable_size
  pub placed : (i : ℕ) → All (InBucket brk i) (get_or t i [])
  pub distinct : (i : ℕ) → Distinct (get_or t i [])

InBucket-mono :
    (brk brk' i : ℕ) (rs : List CRecord)
    → brk ≤ brk'
    → All (InBucket brk i) rs
    → All (InBucket brk' i) rs
InBucket-mono brk brk' i [] h a = tt
InBucket-mono brk brk' i (r ∷ rs) h a = (
  record { home = a.0.home; allocated = omega (arith, a.0.allocated); whole = a.0.whole },
  InBucket-mono brk brk' i rs h a.1,
)

Absent-fresh : (brk i p : ℕ) (rs : List CRecord) → brk ≤ p → All (InBucket brk i) rs → Absent p rs
Absent-fresh brk i p [] h a = tt
Absent-fresh brk i p (r ∷ rs) h a = (omega (arith, a.0.allocated), Absent-fresh brk i p rs h a.1)

module _ (brk brk' : ℕ) (t : Table) (valid : IsTable brk t) (more : brk ≤ brk') where
  -- One chain is replaced by another that belongs in its place.
  set-IsTable :
      (i : ℕ) (b : List CRecord)
      → i < ctable_size
      → All (InBucket brk' i) b
      → Distinct b
      → IsTable brk' (set t i b)
  set-IsTable i b h a d = record {
    wide = rw (length-set t i b) valid.wide;
    placed = λ j. elim (ℕ_discrete i j) [
      | yes e ↦ rw (← e, get_or-set_self t i b [] (omega (arith, valid.wide))) a
      | no ne ↦
          rw (get_or-set_ne t i j b [] ne)
            (InBucket-mono brk brk' j (get_or t j []) more (valid.placed j))
    ];
    distinct = λ j. elim (ℕ_discrete i j) [
      | yes e ↦ rw (← e, get_or-set_self t i b [] (omega (arith, valid.wide))) d
      | no ne ↦ rw (get_or-set_ne t i j b [] ne) (valid.distinct j)
    ];
  }

  pub weaken-IsTable : IsTable brk' t
  weaken-IsTable = record {
    wide = valid.wide;
    placed = λ j. InBucket-mono brk brk' j (get_or t j []) more (valid.placed j);
    distinct = valid.distinct;
  }

home-lt : (ep : RpcEndpoint) → endpoint_hash ep ctable_size < ctable_size
home-lt ep = endpoint_hash-lt ep ctable_size (omega arith)

-- A table without a record is well-formed.
pub ctable_init-IsTable : (brk : ℕ) → IsTable brk ctable_init
unfolding ctable_init
ctable_init-IsTable brk = record {
  wide = length-replicate {A = List CRecord} ctable_size [];
  placed = λ i. rw (get_or-replicate ctable_size i) tt;
  distinct = λ i. rw (get_or-replicate ctable_size i) tt;
}

-- Inserting a record at a fresh address keeps the table well-formed.
pub ctable_insert-IsTable :
    (brk : ℕ) (cr : CRecord) (t : Table)
    → IsTable brk t
    → brk ≤ cr.self
    → length cr.ep.addr ≡ sockaddr_size
    → IsTable (cr.self + 1) (ctable_insert cr t)
unfolding ctable_insert
ctable_insert-IsTable brk cr t valid fresh whole =
    let i = endpoint_hash cr.ep ctable_size in
    set-IsTable brk (cr.self + 1) t valid (omega arith) i (cr ∷ bucket t cr.ep) (home-lt cr.ep)
      (
        record { home = refl; allocated = omega arith; whole = whole },
        InBucket-mono brk (cr.self + 1) i (bucket t cr.ep) (omega arith) (valid.placed i),
      )
      (Absent-fresh brk i cr.self (bucket t cr.ep) fresh (valid.placed i), valid.distinct i)

unlink-Absent : (p q : ℕ) (rs : List CRecord) → Absent q rs → Absent q (unlink p rs)
unfolding unlink
unlink-Absent p q [] a = tt
unlink-Absent p q (r ∷ rs) a = elim (ℕ_discrete p r.self) [
  | yes e ↦ rw (==_of_eq p r.self e) a.1
  | no ne ↦ rw (==_of_ne p r.self ne) (a.0, unlink-Absent p q rs a.1)
]

unlink-Distinct : (p : ℕ) (rs : List CRecord) → Distinct rs → Distinct (unlink p rs)
unfolding unlink
unlink-Distinct p [] d = tt
unlink-Distinct p (r ∷ rs) d = elim (ℕ_discrete p r.self) [
  | yes e ↦ rw (==_of_eq p r.self e) d.1
  | no ne ↦ rw (==_of_ne p r.self ne) (unlink-Absent p r.self rs d.0, unlink-Distinct p rs d.1)
]

-- Removing a record keeps the table well-formed.
pub ctable_remove-IsTable :
    (brk : ℕ) (cr : CRecord) (t : Table) → IsTable brk t → IsTable brk (ctable_remove cr t)
unfolding ctable_remove
ctable_remove-IsTable brk cr t valid =
    let i = endpoint_hash cr.ep ctable_size in
    set-IsTable brk brk t valid (omega arith) i (unlink cr.self (bucket t cr.ep)) (home-lt cr.ep)
      (unlink-All (InBucket brk i) cr.self (bucket t cr.ep) (valid.placed i))
      (unlink-Distinct cr.self (bucket t cr.ep) (valid.distinct i))

assign-Absent : (p : ℕ) (cr : CRecord) (rs : List CRecord) → Absent p rs → Absent p (assign cr rs)
unfolding assign
assign-Absent p cr [] a = tt
assign-Absent p cr (r ∷ rs) a = elim (ℕ_discrete cr.self r.self) [
  | yes e ↦ rw (==_of_eq cr.self r.self e) (rw e a.0, a.1)
  | no ne ↦ rw (==_of_ne cr.self r.self ne) (a.0, assign-Absent p cr rs a.1)
]

assign-Distinct : (cr : CRecord) (rs : List CRecord) → Distinct rs → Distinct (assign cr rs)
unfolding assign
assign-Distinct cr [] d = tt
assign-Distinct cr (r ∷ rs) d = elim (ℕ_discrete cr.self r.self) [
  | yes e ↦ rw (==_of_eq cr.self r.self e) (rw e d.0, d.1)
  | no ne ↦
      rw (==_of_ne cr.self r.self ne) (assign-Absent r.self cr rs d.0, assign-Distinct cr rs d.1)
]

-- A change through a pointer keeps the table well-formed.
pub store-IsTable :
    (brk : ℕ) (cr : CRecord) (t : Table)
    → length cr.ep.addr ≡ sockaddr_size
    → IsTable brk t
    → IsTable brk (store cr t)
unfolding store
store-IsTable brk cr t whole valid =
    let i = endpoint_hash cr.ep ctable_size in
    set-IsTable brk brk t valid (omega arith) i (assign cr (bucket t cr.ep)) (home-lt cr.ep)
      (assign-All (InBucket brk i) cr (bucket t cr.ep)
        (λ r e a. record { home = refl; allocated = rw e a.allocated; whole = whole })
        (valid.placed i))
      (assign-Distinct cr (bucket t cr.ep) (valid.distinct i))
