-- ===== src/Stable.antt =====
-- stable.c and stable.h: the hash table of offered services. A name is the list of its bytes, up to
-- and without the terminating 0. `char` is signed. The list of a bucket stands for its chain.
-- A service's queue is a parameter `Q` here; Tslist.antt models it.
pub mod Hash
pub mod Lookup
use hwdb_opendpi.Prelude.{
  ℕ, zero, suc, ◌+◌, ◌-◌, ◌*◌, ◌%◌, ◌^◌, Bool, true, false, Option, none, some, List, [], ◌∷◌, ◌==◌,
  ltb, if◌then◌else◌, set, get_or, replicate,
}

abbrev pub stable_size : ℕ
stable_size = 13

abbrev pub shift : ℕ
shift = 7

abbrev pub Name : Type 0
Name = List ℕ

-- The 32-bit pattern of a `char` as an `int`.
abbrev pub sign_extend : ℕ → ℕ
sign_extend c = if ltb c 128 then c else 2 ^ 32 - 256 + c

-- The bit pattern of `ans` behind the loop. The sum wraps, as the code is compiled.
unfoldable pub hash_loop : ℕ → Name → ℕ
hash_loop ans [] = ans
hash_loop ans (c ∷ s) = hash_loop ((shift * ans + sign_extend c) % 2 ^ 32) s

-- `ans % STABLE_SIZE`, where it is an index: `none` is a negative remainder.
unfoldable pub hash : Name → Option ℕ
hash s =
    let ans = hash_loop 0 s in
    if ltb ans (2 ^ 31)
    then some (ans % stable_size)
    else if (2 ^ 32 - ans) % stable_size == 0
    then some 0
    else none

-- `strcmp(a, b) == 0`
unfoldable pub str_eq : Name → Name → Bool
str_eq [] [] = true
str_eq [] (d ∷ t) = false
str_eq (c ∷ s) [] = false
str_eq (c ∷ s) (d ∷ t) = if c == d then str_eq s t else false

pub record SRecord (Q : Type 0) : Type 0 where
  pub s_name : Name
  pub s_queue : Q

abbrev pub Stable : Type 0 → Type 0
Stable Q = List (List (SRecord Q))

-- `none` is an access outside the table.
module _ {Q : Type 0} where
  unfoldable pub stable_init : Stable Q
  stable_init = replicate stable_size []

  unfoldable pub find : Name → List (SRecord Q) → Option (SRecord Q)
  find name [] = none
  find name (r ∷ rs) = if str_eq r.s_name name then some r else find name rs

  unfoldable pub stable_lookup : Stable Q → Name → Option (Option (SRecord Q))
  stable_lookup st name = elim (hash name) [
    | none ↦ none
    | some hv ↦ some (find name (get_or st hv []))
  ]

  -- `queue` is what `tsl_create` returns, `alloc` whether the record is allocated.
  unfoldable pub stable_create :
      Stable Q → Name → Bool → Option Q → Option (Stable Q × Option (SRecord Q))
  stable_create st name alloc queue = elim (hash name) [
    | none ↦ none
    | some hv ↦ some (elim (find name (get_or st hv [])) [
      | some r ↦ (st, none)
      | none ↦
          if alloc
          then (elim queue [
            | none ↦ (st, none)
            | some q ↦ (
              set st hv (record { s_name = name; s_queue = q } ∷ get_or st hv []),
              some (record { s_name = name; s_queue = q }),
            )
          ])
          else (st, none)
    ])
  ]

  -- The loop with `pr` and `cu`: the first record of that name leaves the chain.
  unfoldable pub unlink : Name → List (SRecord Q) → List (SRecord Q)
  unlink name [] = []
  unlink name (r ∷ rs) = if str_eq name r.s_name then rs else r ∷ unlink name rs

  unfoldable pub stable_remove : Stable Q → SRecord Q → Option (Stable Q)
  stable_remove st sr = elim (hash sr.s_name) [
    | none ↦ none
    | some hv ↦ some (set st hv (unlink sr.s_name (get_or st hv [])))
  ]
