-- ===== src/Srpc/Serving.antt =====
-- srpc.c: a connection as the server sees it: the key `ep` has one record, at the address `p`.
pub mod Reads
pub mod Once
pub mod Opening
pub mod Safety
use hwdb_opendpi.Prelude.{
  ℕ, ◌+◌, ◌*◌, ◌≤◌, ◌<◌, ◌≡◌, ◌≢◌, refl, sym, ap, ◌∙◌, Bool, true, false, Option, none, some, List,
  [], ◌∷◌, arith, length, get_or, All, get_or-set_self, get_or-set_ne, ◌==◌, ◌&&◌, ==_of_eq,
  ==_of_ne, if◌then◌else◌, Bool-cases, inl, inr,
}
use native.Mathlib.Decide.{ℕ_discrete}
use mathlib.Core.Path.{subst}
use hwdb_opendpi.Endpoint.{ByteOrder, RpcEndpoint, sockaddr_size}
use hwdb_opendpi.Endpoint.Hash.{endpoint_hash-lt}
use hwdb_opendpi.Crecord.{CRecord}
use hwdb_opendpi.Ctable.{Table, ctable_size, bucket, assign, find, ctable_lookup, store}
use hwdb_opendpi.Ctable.Holds.{Holds, Holds-store, Holds-ctable_lookup}
use hwdb_opendpi.Ctable.Invariant.{Absent, Distinct, InBucket, IsTable}
use hwdb_opendpi.Ctable.Lookup.{home, same_key, same_key-home, ctable_lookup-Found}
use hwdb_opendpi.Srpc.{Srpc}
use hwdb_opendpi.Srpc.Reader.Keeps.{IsSrpc}
use hwdb_opendpi.Srpc.Reader.Effects.{IsCalm, rank}

-- A record of the key stands at `p`, has no query of its own, and a rank of `r` or more.
abbrev pub Guard : RpcEndpoint → ℕ → ℕ → CRecord → Type 0
Guard ep p r c = same_key ep c.ep ≡ true → (c.self ≡ p) × IsCalm c × (r ≤ rank c)

pub record Serving (ep : RpcEndpoint) (p r : ℕ) (s : Srpc) : Type 0 where
  pub valid : IsSrpc s
  pub only : Holds (Guard ep p r) s.ctable

module _ (ep : RpcEndpoint) (p r : ℕ) where
  pub Onward-Guard :
      (c c' : CRecord)
      → c'.self ≡ c.self
      → c'.ep ≡ c.ep
      → (same_key ep c.ep ≡ true → IsCalm c → IsCalm c' × (rank c ≤ rank c'))
      → Guard ep p r c
      → Guard ep p r c'
  Onward-Guard c c' self key goes g k =
      let k' : same_key ep c.ep ≡ true = rw (← key) k in
      let (at, calm, low) = g k' in
      let (calm', up) = goes k' calm in (self ∙ at, calm', omega (arith, low, up))

  -- In another bucket no record has the key.
  pub other_bucket :
      (brk i : ℕ) (rs : List CRecord)
      → i ≢ home ep
      → All (InBucket brk i) rs
      → All (Guard ep p r) rs
  other_bucket brk i [] ne b = tt
  other_bucket brk i (x ∷ rs) ne b =
      let off : same_key ep x.ep ≢ true = λ k. ne (sym b.0.home ∙ sym (same_key-home ep x.ep k)) in
      (λ k. absurd (off k), other_bucket brk i rs ne b.1)

-- The record that a lookup finds has the key that was looked up.
pub found_key :
    (s : Srpc) (ep q : RpcEndpoint) (c : CRecord)
    → IsSrpc s
    → length q.addr ≡ sockaddr_size
    → ctable_lookup s.ctable q ≡ some c
    → same_key ep c.ep ≡ same_key ep q
found_key s ep q c v whole found =
    let f = ctable_lookup-Found s.brk s.ctable v.table q whole c found in rw (f.0.home, f.1) refl

-- After the one record of the key has got the rank `r`, every record of the key has it.
module _ (ep : RpcEndpoint) (p r : ℕ) (c' : CRecord) (at : c'.self ≡ p) (calm : IsCalm c')
    (low : r ≤ rank c') where
  elsewhere : (rs : List CRecord) → Absent p rs → All (Guard ep p 0) rs → All (Guard ep p r) rs
  elsewhere [] a h = tt
  elsewhere (x ∷ rs) a h = (λ k. absurd (a.0 (sym ((h.0 k).0))), elsewhere rs a.1 h.1)

  assign-Guard :
      (rs : List CRecord) → Distinct rs → All (Guard ep p 0) rs → All (Guard ep p r) (assign c' rs)
  unfolding assign
  assign-Guard [] d h = tt
  assign-Guard (x ∷ rs) d h = elim (ℕ_discrete c'.self x.self) [
    | yes e ↦
        rw (==_of_eq c'.self x.self e)
          (λ k. (at, calm, low), elsewhere rs (rw (sym e ∙ at) at d.0) h.1)
    | no ne ↦
        rw (==_of_ne c'.self x.self ne)
          (λ k. absurd (ne (at ∙ sym ((h.0 k).0))), assign-Guard rs d.1 h.1)
  ]

  pub store-Guard :
      (s : Srpc)
      → IsSrpc s
      → home c'.ep ≡ home ep
      → Holds (Guard ep p 0) s.ctable
      → Holds (Guard ep p r) (store c' s.ctable)
  unfolding store
  store-Guard s v key h j =
      let i = home c'.ep in
      let fits : i < length s.ctable =
        omega (arith, v.table.wide, endpoint_hash-lt c'.ep ctable_size (omega arith)) in
      elim (ℕ_discrete i j) [
        | yes e ↦
            rw (← e, get_or-set_self s.ctable i (assign c' (bucket s.ctable c'.ep)) [] fits)
              (assign-Guard (bucket s.ctable c'.ep) (v.table.distinct i) (h i))
        | no ne ↦ rw (get_or-set_ne s.ctable i j (assign c' (bucket s.ctable c'.ep)) [] ne) (
            other_bucket ep p r s.brk j (get_or s.ctable j []) (λ e. ne (key ∙ sym e))
              (v.table.placed j))
      ]
