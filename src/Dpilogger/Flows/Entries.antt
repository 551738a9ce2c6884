-- ===== src/Dpilogger/Flows/Entries.antt =====
-- dpilogger.c: lists of entries of a table, as an iterator yields them.
use hwdb_opendpi.Prelude.{
  ℕ, ◌≡◌, refl, sym, ◌∙◌, inl, inr, false, Option, none, some, List, [], ◌∷◌, arith, Bool-cases,
}
use hwdb_opendpi.Stable.{str_eq}
use hwdb_opendpi.Stable.Lookup.{str_eq_refl}
use hwdb_opendpi.Dpilogger.Flows.{Key, lookup, DistinctKeys}

none-ne : {q : ℕ} → none ≡ some q → ⊥
none-ne e = cc

str_eq_sym : (s t : Key) → str_eq s t ≡ str_eq t s
unfolding str_eq
str_eq_sym [] [] = refl
str_eq_sym [] (d ∷ t) = refl
str_eq_sym (c ∷ s) [] = refl
str_eq_sym (c ∷ s) (d ∷ t) = ground (arith, str_eq_sym s t)

-- Every entry of the list is what `get` finds.
abbrev pub Listed : (Key → Option ℕ) → List (Key × ℕ) → Type 0
Listed get [] = Unit {0}
Listed get ((key, p) ∷ rest) = (get key ≡ some p) × Listed get rest

-- Another `get` may differ at a key that is not in the list.
pub Listed-but_one :
    (get get' : Key → Option ℕ) (key : Key) (es : List (Key × ℕ))
    → ((j : Key) → str_eq j key ≡ false → get' j ≡ get j)
    → lookup key es ≡ none
    → Listed get es
    → Listed get' es
Listed-but_one get get' key [] same absent h = tt
Listed-but_one get get' key ((j, p) ∷ es) same absent h = elim (Bool-cases (str_eq key j)) [
  | inl e ↦ absurd (none-ne {q = p} (sym absent ∙ rw e refl))
  | inr e ↦ (
    same j (str_eq_sym j key ∙ e) ∙ h.0,
    Listed-but_one get get' key es same (rw e at absent) h.1,
  )
]

pub Listed-lookup : (es : List (Key × ℕ)) → DistinctKeys es → Listed (λ k. lookup k es) es
Listed-lookup [] d = tt
Listed-lookup ((j, p) ∷ es) d = (
  rw (str_eq_refl j) refl,
  Listed-but_one (λ k. lookup k es) (λ k. lookup k ((j, p) ∷ es)) j es (λ k e. rw e refl) d.0
      (Listed-lookup es d.1),
)

pub Listed-eq :
    (get get' : Key → Option ℕ) (es : List (Key × ℕ))
    → ((k : Key) → get' k ≡ get k)
    → Listed get es
    → Listed get' es
Listed-eq get get' [] same h = tt
Listed-eq get get' ((j, p) ∷ es) same h = (same j ∙ h.0, Listed-eq get get' es same h.1)
