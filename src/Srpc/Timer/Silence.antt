-- ===== src/Srpc/Timer/Silence.antt =====
-- srpc.c: the timer's ticks when no datagram arrives: a record that waits for an answer comes to
-- TIMEDOUT.
use hwdb_opendpi.Prelude.{
  ℕ, zero, suc, ◌+◌, ◌≡◌, ◌≢◌, ◌⊎◌, refl, sym, ap, ◌∙◌, true, false, inl, inr, some, List, [], ◌∷◌,
  arith, get_or, ◌==◌, ==_of_eq, ==_of_ne, Bool-cases,
}
use mathlib.Core.Path.{subst}
use hwdb_opendpi.Endpoint.{ByteOrder, RpcEndpoint, endpoint_equal}
use hwdb_opendpi.Crecord.{CRecord, crecord_set_state, st_timedout}
use hwdb_opendpi.Ctable.{Verdict, keep, timed, scan_record, find}
use hwdb_opendpi.Ctable.Backoff.{verdicts, quiet}
use hwdb_opendpi.Ctable.Invariant.{Absent, Distinct}
use hwdb_opendpi.Ctable.Scanning.{same_verdict, scan_record-SameConnection}
use hwdb_opendpi.Srpc.{Srpc}
use hwdb_opendpi.Srpc.Sending.{find_self}
use hwdb_opendpi.Srpc.Reader.Keeps.{IsSrpc}
use hwdb_opendpi.Srpc.Timer.{timer}
use hwdb_opendpi.Srpc.Timer.Keeps.{timer-IsSrpc}
use hwdb_opendpi.Srpc.Timer.Passes.{ending}
use hwdb_opendpi.Srpc.Timer.Ticks.{after_tick, timer-after_tick}

abbrev pub Listed : CRecord → List CRecord → Type 0
Listed c [] = ⊥
Listed c (r ∷ rs) = (c ≡ r) ⊎ Listed c rs

some_inj : (x y : CRecord) → some x ≡ some y → x ≡ y
some_inj x y e = cc

pub find-Listed :
    (ep : RpcEndpoint) (rs : List CRecord) (c : CRecord) → find ep rs ≡ some c → Listed c rs
unfolding find
find-Listed ep [] c e = cc
find-Listed ep (r ∷ rs) c e = elim (Bool-cases (endpoint_equal ep r.ep)) [
  | inl t ↦ inl (sym (some_inj r c (rw t at e)))
  | inr f ↦ inr (find-Listed ep rs c (rw f at e))
]

Absent-Listed : (q : ℕ) (rs : List CRecord) (c : CRecord) → Absent q rs → Listed c rs → q ≢ c.self
Absent-Listed q [] c a h = absurd h
Absent-Listed q (r ∷ rs) c a (inl e) = λ k. a.0 (k ∙ ap (λ x. x.self) e)
Absent-Listed q (r ∷ rs) c a (inr h) = Absent-Listed q rs c a.1 h

pub find_self-Listed :
    (rs : List CRecord) (c : CRecord) → Distinct rs → Listed c rs → find_self c.self rs ≡ some c
unfolding find_self
find_self-Listed [] c d h = absurd h
find_self-Listed (r ∷ rs) c d (inl e) =
    rw (==_of_eq c.self r.self (ap (λ x. x.self) e)) (ap some (sym e))
find_self-Listed (r ∷ rs) c d (inr h) =
    rw (==_of_ne c.self r.self (λ e. Absent-Listed r.self rs c d.0 h (sym e)))
      (find_self-Listed rs c d.1 h)

-- What a tick leaves of the rest of a bucket stays listed.
behind :
    (c r : CRecord) (rs : List CRecord) → Listed c (after_tick rs) → Listed c (after_tick (r ∷ rs))
unfolding after_tick
behind c r rs k = elim (Bool-cases (r.state == st_timedout)) [
  | inl t ↦ rw t k
  | inr f ↦ elim (Bool-cases (same_verdict timed (scan_record r).1)) [
    | inl t ↦ rw (f, t) (inr k)
    | inr g ↦ rw (f, g) (inr k)
  ]
]

-- A tick on one record of a bucket.
module _ (c : CRecord) (live : c.state ≢ st_timedout) where
  survives :
      (b : List CRecord)
      → same_verdict timed (scan_record c).1 ≡ false
      → Listed c b
      → Listed (scan_record c).0 (after_tick b)
  unfolding after_tick
  survives [] v h = absurd h
  survives (r ∷ rs) v (inl e) = rw (← e) (rw (==_of_ne c.state st_timedout live, v) (inl refl))
  survives (r ∷ rs) v (inr h) = behind (scan_record c).0 r rs (survives rs v h)

  ends_here :
      (b : List CRecord)
      → same_verdict timed (scan_record c).1 ≡ true
      → Listed c b
      → Listed (ending (scan_record c).0) (after_tick b)
  unfolding after_tick
  ends_here [] v h = absurd h
  ends_here (r ∷ rs) v (inl e) = rw (← e) (rw (==_of_ne c.state st_timedout live, v) (inl refl))
  ends_here (r ∷ rs) v (inr h) = behind (ending (scan_record c).0) r rs (ends_here rs v h)

-- The scan times the record out after `k` others.
abbrev pub Ends : ℕ → List Verdict → Type 0
Ends k [] = ⊥
Ends zero (v ∷ vs) = same_verdict timed v ≡ true
Ends (suc k) (v ∷ vs) = (same_verdict timed v ≡ false) × Ends k vs

pub Ends-quiet : (j k : ℕ) (vs : List Verdict) → Ends k vs → Ends (j + k) (quiet j vs)
unfolding quiet
Ends-quiet zero k vs h = let e : k ≡ 0 + k = omega arith in subst (λ n. Ends n vs) e h
Ends-quiet (suc j) k vs h =
    let e : suc (j + k) ≡ suc j + k = omega arith in
    subst (λ n. Ends n (keep ∷ quiet j vs)) e (refl, Ends-quiet j k vs h)

module _ ⦃net : ByteOrder⦄ where
  -- The timer's ticks, with nothing between them.
  unfoldable pub ticked : ℕ → Srpc → Srpc
  ticked zero s = s
  ticked (suc k) s = ticked k (timer s).0

  pub ticked-IsSrpc : (k : ℕ) (s : Srpc) → IsSrpc s → IsSrpc (ticked k s)
  unfolding ticked
  ticked-IsSrpc zero s v = v
  ticked-IsSrpc (suc k) s v = ticked-IsSrpc k (timer s).0 (timer-IsSrpc s v)

  pub ticked-ends :
      (k i : ℕ) (s : Srpc) (c : CRecord)
      → IsSrpc s
      → Listed c (get_or s.ctable i [])
      → c.state ≢ st_timedout
      → Ends k (verdicts (suc k) c)
      → (c' : CRecord) × Listed c' (get_or (ticked (suc k) s).ctable i [])
        × (c'.self ≡ c.self)
        × (c'.state ≡ st_timedout)
  unfolding ticked verdicts crecord_set_state
  ticked-ends zero i s c v h live e = (
    ending (scan_record c).0,
    rw (timer-after_tick s i v) (ends_here c live (get_or s.ctable i []) e h),
    (scan_record-SameConnection c).self,
    refl,
  )
  ticked-ends (suc k) i s c v h live e =
      let same = scan_record-SameConnection c in
      let (c', l, at, st) =
        ticked-ends k i (timer s).0 (scan_record c).0 (timer-IsSrpc s v)
          (rw (timer-after_tick s i v) (survives c live (get_or s.ctable i []) e.0 h))
          (rw same.state live) e.1 in
      (c', l, at ∙ same.self, st)
