-- ===== src/Stable/Lookup.antt =====
-- stable.c: the service table refines a map from names to services. The hash is shut: all that is
-- used of it is that equal names have one hash.
use native.Mathlib.Decide.{ℕ_discrete}
use hwdb_opendpi.Prelude.{
  ◌∙◌, ap, ℕ, ◌<◌, ◌≡◌, ◌≢◌, refl, sym, ◌⊎◌, inl, inr, Bool, true, false, Option, none, some, List,
  [], ◌∷◌, arith, length, get_or, set, get_or-set_self, get_or-set_ne, length-set, Bool-cases,
  Option-cases, get_or-replicate,
}
use hwdb_opendpi.Stable.{
  Name, Stable, SRecord, stable_size, hash, str_eq, find, stable_lookup, stable_create, stable_init,
}

pub str_eq_refl : (s : Name) → str_eq s s ≡ true
unfolding str_eq
str_eq_refl [] = refl
str_eq_refl (c ∷ s) = ground (arith, str_eq_refl s)

pub eq_of_str_eq : (s t : Name) → str_eq s t ≡ true → s ≡ t
unfolding str_eq
eq_of_str_eq [] [] h = refl
eq_of_str_eq [] (d ∷ t) h = cc
eq_of_str_eq (c ∷ s) [] h = cc
eq_of_str_eq (c ∷ s) (d ∷ t) h = ground (arith, eq_of_str_eq s t)

pub hash-lt : (s : Name) (i : ℕ) → hash s ≡ some i → i < stable_size
unfolding hash
hash-lt s i h = ground arith

none_ne : {A : Type 0} {x : A} → none ≡ some x → ⊥
none_ne e = cc

some_inj : {A : Type 0} (x y : A) → some x ≡ some y → x ≡ y
some_inj x y e = cc

module _ {Q : Type 0} where
  found_name :
      (name : Name) (rs : List (SRecord Q)) (sv : SRecord Q)
      → find name rs ≡ some sv
      → sv.s_name ≡ name
  unfolding find
  found_name name [] sv e = cc
  found_name name (r ∷ rs) sv e = elim (Bool-cases (str_eq r.s_name name)) [
    | inl t ↦
        let same : some r ≡ some sv = rw (t, find) at e in
        ap (λ (x : SRecord Q). x.s_name) (sym (some_inj r sv same)) ∙ eq_of_str_eq r.s_name name t
    | inr t ↦ found_name name rs sv (rw (t, find) at e)
  ]

  -- A service that a lookup finds has a name with an index.
  pub stable_lookup-hash :
      (st : Stable Q) (name : Name) (sv : SRecord Q)
      → stable_lookup st name ≡ some (some sv)
      → (i : ℕ) × (hash sv.s_name ≡ some i)
  unfolding stable_lookup
  stable_lookup-hash st name sv e = elim (Option-cases (hash name)) [
    | inl n ↦ absurd (none_ne (rw (n, stable_lookup) at e))
    | inr (hv, h) ↦
        let found : some (find name (get_or st hv [])) ≡ some (some sv) =
          rw (h, stable_lookup) at e in
        (hv, rw (found_name name (get_or st hv []) sv (some_inj _ _ found)) h)
  ]

  -- What a lookup gives, where the name has an index.
  pub stable_lookup-bucket :
      (st : Stable Q) (name : Name) (hv : ℕ)
      → hash name ≡ some hv
      → stable_lookup st name ≡ some (find name (get_or st hv []))
  unfolding stable_lookup
  stable_lookup-bucket st name hv e = rw (e, stable_lookup)

  -- A lookup goes wrong only for a name with no index.
  pub stable_lookup-ne :
      (st : Stable Q) (name : Name) → hash name ≢ none → stable_lookup st name ≢ none
  stable_lookup-ne st name indexed e = elim (Option-cases (hash name)) [
    | inl n ↦ indexed n
    | inr (hv, h) ↦ none_ne (sym e ∙ stable_lookup-bucket st name hv h)
  ]

  -- In a fresh table no name is offered.
  pub stable_lookup-stable_init :
      (name : Name) (hv : ℕ)
      → hash name ≡ some hv
      → stable_lookup {Q = Q} stable_init name ≡ some none
  unfolding stable_init find
  stable_lookup-stable_init name hv e =
      rw (stable_lookup-bucket stable_init name hv e, get_or-replicate stable_size hv) refl

  module _ (st : Stable Q) (name : Name) (hv : ℕ) (placed : hash name ≡ some hv) where
    -- Offering a name twice is refused, and changes nothing.
    pub stable_create_twice :
        (r : SRecord Q) (alloc : Bool) (queue : Option Q)
        → stable_lookup st name ≡ some (some r)
        → stable_create st name alloc queue ≡ some (st, none)
    unfolding stable_create
    stable_create_twice r alloc queue h =
        let e : find name (get_or st hv []) ≡ some r =
          ground (arith, stable_lookup-bucket st name hv placed) in
        rw (placed, stable_create, e)

    abbrev created : Q → SRecord Q
    created q = record { s_name = name; s_queue = q }

    find-created :
        (q : Q) (other : Name) (rs : List (SRecord Q))
        → find other (created q ∷ rs)
          ≡ (elim (str_eq name other) [ true ↦ some (created q) | false ↦ find other rs ])
    unfolding find
    find-created q other rs = ground arith

    find-other :
        (q : Q) (other : Name)
        → hv < length st
        → other ≢ name
        → (hash other ≡ none) ⊎ ((i : ℕ) × (hash other ≡ some i))
        → stable_lookup (set st hv (created q ∷ get_or st hv [])) other ≡ stable_lookup st other
    unfolding stable_lookup
    find-other q other room ne (inl e) = rw (e, stable_lookup)
    find-other q other room ne (inr (i, e)) =
        let differs : str_eq name other ≡ false = elim (Bool-cases (str_eq name other)) [
          | inl same ↦ absurd (ne (sym (eq_of_str_eq name other same)))
          | inr no_match ↦ no_match
        ] in
        rw
          (
            stable_lookup-bucket (set st hv (created q ∷ get_or st hv [])) other i e,
            stable_lookup-bucket st other i e,
          )
          (elim (ℕ_discrete hv i) [
            | yes same ↦
                rw (← same, get_or-set_self st hv (created q ∷ get_or st hv []) [] room)
                  (rw (find-created q other (get_or st hv []), differs) refl)
            | no apart ↦ rw (get_or-set_ne st hv i (created q ∷ get_or st hv []) [] apart) refl
          ])

    -- A name that is not yet offered is, after `stable_create`; every other name keeps its answer.
    pub stable_create-lookup :
        (q : Q) (other : Name)
        → length st ≡ stable_size
        → stable_lookup st name ≡ some none
        → (st' : Stable Q) × (stable_create st name true (some q) ≡ some (st', some (created q)))
          × (length st' ≡ stable_size)
          × (stable_lookup st' name ≡ some (some (created q)))
          × (other ≢ name → stable_lookup st' other ≡ stable_lookup st other)
    unfolding stable_create
    stable_create-lookup q other wide h =
        let e : find name (get_or st hv []) ≡ none =
          ground (arith, stable_lookup-bucket st name hv placed) in
        let st' : Stable Q = set st hv (created q ∷ get_or st hv []) in
        let room : hv < length st = omega (arith, hash-lt name hv placed) in
        (
          st',
          rw (placed, stable_create, e),
          rw (length-set st hv) wide,
          rw
              (
                stable_lookup-bucket st' name hv placed,
                get_or-set_self st hv (created q ∷ get_or st hv []) [] room,
                find-created q name (get_or st hv []),
                str_eq_refl name,
              )
              refl,
          λ ne. find-other q other room ne (Option-cases (hash other)),
        )
