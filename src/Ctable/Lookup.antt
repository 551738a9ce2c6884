-- ===== src/Ctable/Lookup.antt =====
-- ctable.c: what a lookup returns behind an insertion, a change or a removal. The key of a record
-- is its bucket and its subport, since that is all that the code compares.
use hwdb_opendpi.Prelude.{
  ℕ, ◌≡◌, ◌≢◌, refl, sym, ap, ◌∙◌, Bool, true, ◌&&◌, Option, none, some, List, [], ◌∷◌, arith,
  length, set, All, get_or-set_self, get_or-set_ne, ==_of_eq, ==_of_ne, ◌==◌, if◌then◌else◌,
}
use mathlib.Core.Path.{subst}
use mathlib.Core.Logic.{◌⊎◌, inl, inr}
use native.Mathlib.Decide.{ℕ_discrete}
use hwdb_opendpi.Endpoint.{RpcEndpoint, endpoint_hash, sockaddr_size}
use hwdb_opendpi.Endpoint.Equal.{endpoint_equal-==}
use hwdb_opendpi.Endpoint.Hash.{endpoint_hash-lt}
use hwdb_opendpi.Crecord.{CRecord}
use hwdb_opendpi.Ctable.{
  Table, ctable_size, bucket, find, ctable_lookup, ctable_insert, assign, store,
}
use hwdb_opendpi.Ctable.Invariant.{Absent, Distinct, InBucket, IsTable}

abbrev pub home : RpcEndpoint → ℕ
home ep = endpoint_hash ep ctable_size

-- `a` and `b` are one key to the table: they agree in bucket and subport.
abbrev pub same_key : RpcEndpoint → RpcEndpoint → Bool
same_key a b = home a == home b && a.subport == b.subport

pub same_key_refl : (a : RpcEndpoint) → same_key a a ≡ true
same_key_refl a = ground arith

pub same_key-home : (a b : RpcEndpoint) → same_key a b ≡ true → home a ≡ home b
same_key-home a b k = ground arith

pub same_key-subport : (a b : RpcEndpoint) → same_key a b ≡ true → a.subport ≡ b.subport
same_key-subport a b k = ground arith

lookup-set :
    (t : Table) (at ep : RpcEndpoint) (b : List CRecord)
    → length t ≡ ctable_size
    → ctable_lookup (set t (home at) b) ep
      ≡ (if home ep == home at then find ep b else ctable_lookup t ep)
unfolding ctable_lookup
lookup-set t at ep b wide = elim (ℕ_discrete (home at) (home ep)) [
  | yes e ↦
      rw
        (
          ==_of_eq (home ep) (home at) (sym e),
          ← e,
          get_or-set_self t (home at) b []
              (omega (arith, wide, endpoint_hash-lt at ctable_size (omega arith))),
        )
        refl
  | no ne ↦
      rw
        (
          ==_of_ne (home ep) (home at) (λ e. ne (sym e)),
          get_or-set_ne t (home at) (home ep) b [] ne,
        )
        refl
]

pub find-cons :
    (ep : RpcEndpoint) (r : CRecord) (rs : List CRecord)
    → length ep.addr ≡ sockaddr_size
    → find ep (r ∷ rs) ≡ (if ep.subport == r.ep.subport then some r else find ep rs)
unfolding find
find-cons ep r rs whole = rw (endpoint_equal-== ep r.ep whole)

-- After an insertion a lookup under the same key gives the new record, and under any other key
-- what it gave before.
pub ctable_lookup-ctable_insert :
    (cr : CRecord) (t : Table) (ep : RpcEndpoint)
    → length t ≡ ctable_size
    → length ep.addr ≡ sockaddr_size
    → ctable_lookup (ctable_insert cr t) ep
      ≡ (if same_key ep cr.ep then some cr else ctable_lookup t ep)
unfolding ctable_insert ctable_lookup
ctable_lookup-ctable_insert cr t ep wide whole =
    lookup-set t cr.ep ep (cr ∷ bucket t cr.ep) wide ∙ elim (ℕ_discrete (home ep) (home cr.ep)) [
      | yes e ↦
          rw (==_of_eq (home ep) (home cr.ep) e, find-cons ep cr (bucket t cr.ep) whole, e) refl
      | no ne ↦ rw (==_of_ne (home ep) (home cr.ep) ne) refl
    ]

find-nil : (ep : RpcEndpoint) → find ep [] ≡ none
unfolding find
find-nil ep = refl

if_first {ℓ} :
    {A : Type ℓ} (q a b c : ℕ) (x y z : A)
    → a ≡ b
    → c ≡ b
    → (if q == a then x else y) ≡ (if q == b then x else if q == c then z else y)
if_first q a b c x y z e f = ground arith

if_swap {ℓ} :
    {A : Type ℓ} (q a b : ℕ) (x y z : A)
    → a ≢ b
    → (if q == b then z else if q == a then x else y)
      ≡ (if q == a then x else if q == b then z else y)
if_swap q a b x y z ne = ground arith

if_some {ℓ} :
    {A : Type ℓ} (a b : ℕ) (x y : A) (o : Option A)
    → (if a == b then some x else o) ≡ some y
    → ((a ≡ b) × (x ≡ y)) ⊎ ((a ≢ b) × (o ≡ some y))
if_some a b x y o h = elim (ℕ_discrete a b) [
  | yes e ↦ inl (e, ground arith)
  | no ne ↦ inr (ne, ground arith)
]

-- What a successful search of a chain gives.
module _ (ep : RpcEndpoint) (whole : length ep.addr ≡ sockaddr_size) (cr : CRecord) where
  pub find_cases :
      (r : CRecord) (rs : List CRecord)
      → find ep (r ∷ rs) ≡ some cr
      → ((ep.subport ≡ r.ep.subport) × (r ≡ cr))
        ⊎ ((ep.subport ≢ r.ep.subport) × (find ep rs ≡ some cr))
  find_cases r rs e =
      if_some ep.subport r.ep.subport r cr (find ep rs) (sym (find-cons ep r rs whole) ∙ e)

  find-Found :
      (brk i : ℕ) (rs : List CRecord)
      → All (InBucket brk i) rs
      → find ep rs ≡ some cr
      → InBucket brk i cr × (cr.ep.subport ≡ ep.subport)
  find-Found brk i [] a e = cc (find-nil ep)
  find-Found brk i (r ∷ rs) a e = elim (find_cases r rs e) [
    | inl (same, is) ↦
        subst (λ x. InBucket brk i x × (x.ep.subport ≡ ep.subport)) is (a.0, sym same)
    | inr (differ, rest) ↦ find-Found brk i rs a.1 rest
  ]

  pub Absent-find : (p : ℕ) (rs : List CRecord) → Absent p rs → find ep rs ≡ some cr → p ≢ cr.self
  Absent-find p [] a e = cc (find-nil ep)
  Absent-find p (r ∷ rs) a e = elim (find_cases r rs e) [
    | inl (same, is) ↦ subst (λ x. p ≢ x.self) is a.0
    | inr (differ, rest) ↦ Absent-find p rs a.1 rest
  ]

  module _ (cr' : CRecord) (self : cr'.self ≡ cr.self) (key : cr'.ep ≡ cr.ep) where
    find-assign :
        (q : RpcEndpoint) (rs : List CRecord)
        → length q.addr ≡ sockaddr_size
        → Distinct rs
        → find ep rs ≡ some cr
        → find q (assign cr' rs) ≡ (if q.subport == ep.subport then some cr' else find q rs)
    unfolding assign
    find-assign q [] whole' d e = cc (find-nil ep)
    find-assign q (r ∷ rs) whole' d e = elim (find_cases r rs e) [
      | inl (same, is) ↦ rw (==_of_eq cr'.self r.self (self ∙ sym (ap (λ x. x.self) is))) (
          rw (find-cons q cr' rs whole', find-cons q r rs whole')
            (if_first q.subport cr'.ep.subport ep.subport r.ep.subport _ _ _
              (ap (λ x. x.subport) key ∙ sym (ap (λ x. x.ep.subport) is) ∙ sym same) (sym same)))
      | inr (differ, rest) ↦
          rw (==_of_ne cr'.self r.self (λ h. Absent-find r.self rs d.0 rest (sym h ∙ self))) (
            rw
              (
                find-cons q r (assign cr' rs) whole',
                find-cons q r rs whole',
                find-assign q rs whole' d.1 rest,
              )
              (if_swap q.subport ep.subport r.ep.subport _ _ _ differ))
    ]

module _ (brk : ℕ) (t : Table) (valid : IsTable brk t) (ep : RpcEndpoint)
    (whole : length ep.addr ≡ sockaddr_size) (cr : CRecord)
    (found : ctable_lookup t ep ≡ some cr) where
  -- A lookup gives a record of the bucket with the subport that was asked for.
  pub ctable_lookup-Found : InBucket brk (home ep) cr × (cr.ep.subport ≡ ep.subport)
  unfolding ctable_lookup
  ctable_lookup-Found =
      find-Found ep whole cr brk (home ep) (bucket t ep) (valid.placed (home ep)) found

  -- After a change through the pointer that a lookup gave, the same key gives the changed record,
  -- and any other key what it gave before.
  pub ctable_lookup-store :
      (cr' : CRecord) (q : RpcEndpoint)
      → cr'.self ≡ cr.self
      → cr'.ep ≡ cr.ep
      → length q.addr ≡ sockaddr_size
      → ctable_lookup (store cr' t) q ≡ (if same_key q ep then some cr' else ctable_lookup t q)
  unfolding store ctable_lookup
  ctable_lookup-store cr' q self key whole' =
      let at : home cr'.ep ≡ home ep = ap home key ∙ (ctable_lookup-Found.0).home in
      lookup-set t cr'.ep q (assign cr' (bucket t cr'.ep)) valid.wide
      ∙ elim (ℕ_discrete (home q) (home ep)) [
        | yes e ↦
            rw (==_of_eq (home q) (home cr'.ep) (e ∙ sym at), ==_of_eq (home q) (home ep) e, at, e)
              (find-assign ep whole cr cr' self key q (bucket t ep) whole'
                (valid.distinct (home ep)) found)
        | no ne ↦
            rw (==_of_ne (home q) (home cr'.ep) (λ e. ne (e ∙ at)), ==_of_ne (home q) (home ep) ne)
              refl
      ]
