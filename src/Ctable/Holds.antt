-- ===== src/Ctable/Holds.antt =====
-- ctable.c: a property of every record of the table, behind each operation on the table.
use hwdb_opendpi.Prelude.{
  ℕ, ◌≡◌, inl, inr, some, List, [], ◌∷◌, arith, length, get_or, set, All, get_or-set_self,
  length-set, get_or-set_ne, ==_of_eq, ==_of_ne, Bool-cases,
}
use mathlib.Core.Path.{subst}
use native.Mathlib.Decide.{ℕ_discrete}
use hwdb_opendpi.Endpoint.{RpcEndpoint, endpoint_hash, endpoint_equal}
use hwdb_opendpi.Endpoint.Hash.{endpoint_hash-lt}
use hwdb_opendpi.Crecord.{CRecord}
use hwdb_opendpi.Ctable.{
  Table, ctable_size, bucket, find, ctable_lookup, ctable_insert, ctable_remove, unlink, assign,
  store,
}

some_inj : (x y : CRecord) → some x ≡ some y → x ≡ y
some_inj x y e = cc

pub unlink-All : (P : CRecord → Type 0) (p : ℕ) (rs : List CRecord) → All P rs → All P (unlink p rs)
unfolding unlink
unlink-All P p [] a = tt
unlink-All P p (r ∷ rs) a = elim (ℕ_discrete p r.self) [
  | yes e ↦ rw (==_of_eq p r.self e) a.1
  | no ne ↦ rw (==_of_ne p r.self ne) (a.0, unlink-All P p rs a.1)
]

-- The new record has the property when the one that it replaces has it.
pub assign-All :
    (P : CRecord → Type 0) (cr : CRecord) (rs : List CRecord)
    → ((r : CRecord) → cr.self ≡ r.self → P r → P cr)
    → All P rs
    → All P (assign cr rs)
unfolding assign
assign-All P cr [] h a = tt
assign-All P cr (r ∷ rs) h a = elim (ℕ_discrete cr.self r.self) [
  | yes e ↦ rw (==_of_eq cr.self r.self e) (h r e a.0, a.1)
  | no ne ↦ rw (==_of_ne cr.self r.self ne) (a.0, assign-All P cr rs h a.1)
]

-- A successful search gives a record of the chain.
pub find-All :
    (P : CRecord → Type 0) (ep : RpcEndpoint) (rs : List CRecord) (cr : CRecord)
    → All P rs
    → find ep rs ≡ some cr
    → P cr
unfolding find
find-All P ep [] cr a e = cc
find-All P ep (r ∷ rs) cr a e = elim (Bool-cases (endpoint_equal ep r.ep)) [
  | inl t ↦ subst P (some_inj r cr (rw t at e)) a.0
  | inr f ↦ find-All P ep rs cr a.1 (rw f at e)
]

pub length-store : (cr : CRecord) (t : Table) → length (store cr t) ≡ length t
unfolding store
length-store cr t = length-set t _ _

pub length-ctable_remove : (cr : CRecord) (t : Table) → length (ctable_remove cr t) ≡ length t
unfolding ctable_remove
length-ctable_remove cr t = length-set t _ _

-- Every record of the table has the property.
abbrev pub Holds : (CRecord → Type 0) → Table → Type 0
Holds P t = (i : ℕ) → All P (get_or t i [])

module _ (P : CRecord → Type 0) (t : Table) (wide : length t ≡ ctable_size) (h : Holds P t) where
  Holds-set :
      (ep : RpcEndpoint) (b : List CRecord)
      → All P b
      → Holds P (set t (endpoint_hash ep ctable_size) b)
  Holds-set ep b a j = elim (ℕ_discrete (endpoint_hash ep ctable_size) j) [
    | yes e ↦
        rw
          (
            ← e,
            get_or-set_self t (endpoint_hash ep ctable_size) b []
                (omega (arith, wide, endpoint_hash-lt ep ctable_size (omega arith))),
          )
          a
    | no ne ↦ rw (get_or-set_ne t (endpoint_hash ep ctable_size) j b [] ne) (h j)
  ]

  pub Holds-store : (cr : CRecord) → P cr → Holds P (store cr t)
  unfolding store
  Holds-store cr p = Holds-set cr.ep _ (assign-All P cr (bucket t cr.ep) (λ r _ _. p) (h _))

  pub Holds-ctable_insert : (cr : CRecord) → P cr → Holds P (ctable_insert cr t)
  unfolding ctable_insert
  Holds-ctable_insert cr p = Holds-set cr.ep _ (p, h _)

  pub Holds-ctable_remove : (cr : CRecord) → Holds P (ctable_remove cr t)
  unfolding ctable_remove
  Holds-ctable_remove cr = Holds-set cr.ep _ (unlink-All P cr.self (bucket t cr.ep) (h _))

  pub Holds-ctable_lookup : (ep : RpcEndpoint) (cr : CRecord) → ctable_lookup t ep ≡ some cr → P cr
  unfolding ctable_lookup
  Holds-ctable_lookup ep cr e = find-All P ep (bucket t ep) cr (h _) e

pub All-imp :
    (P Q : CRecord → Type 0) (rs : List CRecord) → ((r : CRecord) → P r → Q r) → All P rs → All Q rs
All-imp P Q [] f a = tt
All-imp P Q (r ∷ rs) f a = (f r a.0, All-imp P Q rs f a.1)
