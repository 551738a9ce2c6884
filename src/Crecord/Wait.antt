-- ===== src/Crecord/Wait.antt =====
-- crecord.c: what a wait for a state returns.
use hwdb_opendpi.Prelude.{
  ℕ, ◌≡◌, ◌≢◌, refl, none, some, List, [], ◌∷◌, arith, ◌⊎◌, inl, inr, All, ==_of_eq, ==_of_ne,
}
use native.Mathlib.Decide.{ℕ_discrete}
use hwdb_opendpi.Crecord.{CRecord, crecord_wait_for_state}

-- The wait returns the record's state when that is one of the given states, and goes on waiting
-- exactly when it is none of them.
pub crecord_wait_for_state_lem :
    (cr : CRecord) (states : List ℕ)
    → (crecord_wait_for_state cr states ≡ some cr.state)
      ⊎ ((crecord_wait_for_state cr states ≡ none) × All (λ s. cr.state ≢ s) states)
unfolding crecord_wait_for_state
crecord_wait_for_state_lem cr [] = inr (refl, tt)
crecord_wait_for_state_lem cr (s ∷ ss) = elim (ℕ_discrete cr.state s) [
  | yes e ↦ inl (rw (==_of_eq cr.state s e) (ground arith))
  | no ne ↦
      rw (==_of_ne cr.state s ne)
        (elim (crecord_wait_for_state_lem cr ss) [ inl e ↦ inl e | inr w ↦ inr (w.0, (ne, w.1)) ])
]
