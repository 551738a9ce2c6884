-- ===== src/Dpilogger/Flows/Aging.antt =====
-- dpilogger.c, `garbadge_collect_osdpi_flows`: which flows a collection leaves.
use hwdb_opendpi.Prelude.{
  Bool, ℕ, ◌+◌, ◌≤◌, ◌<◌, ◌≡◌, ◌≢◌, refl, sym, ap, ◌∙◌, inl, inr, true, false, Option, none, some,
  List, [], ◌∷◌, arith, ltb, if◌then◌else◌, Bool-cases, Option-cases, ==_of_ne, done,
}
use hwdb_opendpi.Stable.{str_eq}
use hwdb_opendpi.Stable.Lookup.{str_eq_refl, eq_of_str_eq}
use hwdb_opendpi.Dpilogger.Flows.{
  Key, HashTable, IsLawful, lookup, DistinctKeys, OsdpiFlow, connection_timeout, sub32, write,
  Logger, collect_flow, collect_flows, garbadge_collect_osdpi_flows,
}
use hwdb_opendpi.Dpilogger.Flows.Entries.{Listed, Listed-but_one, Listed-lookup, Listed-eq}

abbrev pub pointed : (ℕ → Option OsdpiFlow) → Option ℕ → Option OsdpiFlow
pointed heap none = none
pointed heap (some p) = heap p

-- A flow that was idle for more than CONNECTION_TIMEOUT seconds is gone.
abbrev pub aged : ℕ → Option OsdpiFlow → Option OsdpiFlow
aged time none = none
aged time (some f) = if ltb connection_timeout (sub32 time f.last_pkt) then none else some f

module _ (T : HashTable) where
  -- What the program knows of the flow with the key `k`.
  abbrev pub flow_of : Logger T → Key → Option OsdpiFlow
  flow_of s k = pointed s.flow_at (T.get s.flows k)

  -- Every pointer of the table leads to a flow of its own.
  pub record IsLogger (s : Logger T) : Type 0 where
    pub live :
        (k : Key) (p : ℕ) → T.get s.flows k ≡ some p → (f : OsdpiFlow) × (s.flow_at p ≡ some f)
    pub below : (k : Key) (p : ℕ) → T.get s.flows k ≡ some p → p < s.brk
    pub apart : (j k : Key) (p : ℕ) → T.get s.flows j ≡ some p → T.get s.flows k ≡ some p → j ≡ k

none-ne : {q : ℕ} → none ≡ some q → ⊥
none-ne e = cc

module _ (T : HashTable) (lawful : IsLawful T) (time : ℕ) where
  -- After one round.
  pub record Collected (key : Key) (s s' : Logger T) : Type 0 where
    pub valid : IsLogger T s'
    pub flow :
        (j : Key)
        → flow_of T s' j ≡ (if str_eq j key then aged time (flow_of T s j) else flow_of T s j)
    pub others : (j : Key) → str_eq j key ≡ false → T.get s'.flows j ≡ T.get s.flows j
    pub room : s.room ≤ s'.room

  module _ (s : Logger T) (v : IsLogger T s) (key : Key) (p : ℕ)
      (known : T.get s.flows key ≡ some p) (f : OsdpiFlow) (here : s.flow_at p ≡ some f) where
    abbrev removed : Logger T
    removed = record s {
      flows = T.remove s.flows key;
      flow_at = write s.flow_at p none;
      room = s.room + 2;
    }

    differ : (j : Key) (q : ℕ) → str_eq j key ≡ false → T.get s.flows j ≡ some q → q ≢ p
    differ j q t e same =
        let other : j ≡ key = v.apart j key p (e ∙ ap some same) known in
        cc (other, t, str_eq_refl key)

    write-other :
        (j : Key) (q : ℕ)
        → str_eq j key ≡ false
        → T.get s.flows j ≡ some q
        → write s.flow_at p none q ≡ s.flow_at q
    write-other j q t e = rw (==_of_ne q p (differ j q t e)) refl

    get-removed_same : (j : Key) → str_eq j key ≡ true → T.get removed.flows j ≡ none
    get-removed_same j t = lawful.get-remove s.flows key j ∙ rw t refl

    get-removed_other : (j : Key) → str_eq j key ≡ false → T.get removed.flows j ≡ T.get s.flows j
    get-removed_other j t = lawful.get-remove s.flows key j ∙ rw t refl

    get-removed :
        (j : Key) (q : ℕ)
        → T.get removed.flows j ≡ some q
        → (T.get s.flows j ≡ some q) × (q ≢ p) × (str_eq j key ≡ false)
    get-removed j q e = elim (Bool-cases (str_eq j key)) [
      | inl t ↦ absurd (none-ne (sym (get-removed_same j t) ∙ e))
      | inr t ↦
          let old : T.get s.flows j ≡ some q = sym (get-removed_other j t) ∙ e in
          (old, λ same. differ j q t old same, t)
    ]

    removed-IsLogger : IsLogger T removed
    removed-IsLogger = record {
      live = λ k q e.
          let (old, ne, other) = get-removed k q e in
          let (g, at) = v.live k q old in (g, write-other k q other old ∙ at);
      below = λ k q e. v.below k q (get-removed k q e).0;
      apart = λ j k q e e'. v.apart j k q (get-removed j q e).0 (get-removed k q e').0;
    }

    flow_of-key : flow_of T s key ≡ some f
    flow_of-key = rw (flow_of, known) here

    flow_of-removed :
        (j : Key) → flow_of T removed j ≡ (if str_eq j key then none else flow_of T s j)
    flow_of-removed j = elim (Bool-cases (str_eq j key)) [
      | inl t ↦ rw (t, lawful.get-remove s.flows key j, t) refl
      | inr t ↦
          rw (t, lawful.get-remove s.flows key j, t)
            (elim (Option-cases (T.get s.flows j)) [
              | inl e ↦ rw e refl
              | inr (q, e) ↦ rw e (write-other j q t e)
            ])
    ]

    removed-Collected :
        ltb connection_timeout (sub32 time f.last_pkt) ≡ true → Collected key s removed
    removed-Collected old = record {
      valid = removed-IsLogger;
      flow = λ j. flow_of-removed j ∙ elim (Bool-cases (str_eq j key)) [
        | inl t ↦
            let same : j ≡ key = eq_of_str_eq j key t in rw (t, same, flow_of-key, aged, old) refl
        | inr t ↦ rw t refl
      ];
      others = get-removed_other;
      room = omega arith;
    }

    kept-Collected : ltb connection_timeout (sub32 time f.last_pkt) ≡ false → Collected key s s
    kept-Collected young = record {
      valid = v;
      flow = λ j. elim (Bool-cases (str_eq j key)) [
        | inl t ↦
            let same : j ≡ key = eq_of_str_eq j key t in rw (t, same, flow_of-key, aged, young) refl
        | inr t ↦ rw t refl
      ];
      others = λ j t. refl;
      room = omega arith;
    }

    collect_flow_lem :
        (s' : Logger T) × (collect_flow T time key p s ≡ done s') × Collected key s s'
    unfolding collect_flow
    collect_flow_lem = elim (Bool-cases (ltb connection_timeout (sub32 time f.last_pkt))) [
      | inl old ↦ (removed, rw (here, collect_flow, old) refl, removed-Collected old)
      | inr young ↦ (s, rw (here, collect_flow, young) refl, kept-Collected young)
    ]

-- The flow of a key that was in the list, or not.
abbrev swept : ℕ → Option ℕ → Option OsdpiFlow → Option OsdpiFlow
swept time none f = f
swept time (some p) f = aged time f

swept-cons :
    (time : ℕ) (j key : Key) (p : ℕ) (es : List (Key × ℕ)) (f : Option OsdpiFlow)
    → lookup key es ≡ none
    → swept time (lookup j es) (if str_eq j key then aged time f else f)
      ≡ swept time (lookup j ((key, p) ∷ es)) f
swept-cons time j key p es f absent = elim (Bool-cases (str_eq j key)) [
  | inl e ↦
      let same : j ≡ key = eq_of_str_eq j key e in
      let gone : lookup j es ≡ none = rw same absent in rw (e, gone) refl
  | inr e ↦ rw e refl
]

module _ (T : HashTable) (lawful : IsLawful T) (time : ℕ) where
  collect_flows_lem :
      (es : List (Key × ℕ)) (s : Logger T)
      → IsLogger T s
      → DistinctKeys es
      → Listed (T.get s.flows) es
      → (s' : Logger T) × (collect_flows T time es s ≡ done s')
        × IsLogger T s'
        × ((j : Key) → flow_of T s' j ≡ swept time (lookup j es) (flow_of T s j))
        × (s.room ≤ s'.room)
  unfolding collect_flows
  collect_flows_lem [] s v d h = (s, refl, v, λ j. refl, omega arith)
  collect_flows_lem ((key, p) ∷ es) s v d h =
      let (f, here) = v.live key p h.0 in
      let (s1, run1, c) = collect_flow_lem T lawful time s v key p h.0 f here in
      let (s2, run2, v2, flow, room) =
        collect_flows_lem es s1 c.valid d.1
          (Listed-but_one (T.get s.flows) (T.get s1.flows) key es c.others d.0 h.1) in
      (
        s2,
        rw (run1, run2) refl,
        v2,
        λ j.
            flow j
            ∙ ap (swept time (lookup j es)) (c.flow j)
            ∙ swept-cons time j key p es (flow_of T s j) d.0,
        omega (arith, c.room, room),
      )

  -- A collection ends without a fault. If libhashish makes its iterator, it leaves exactly the
  -- flows that had a packet in the last CONNECTION_TIMEOUT seconds, unchanged, and if not, it
  -- leaves all.
  pub garbadge_collect_osdpi_flows-aged :
      (made : Bool) (s : Logger T)
      → IsLogger T s
      → (s' : Logger T) × (garbadge_collect_osdpi_flows T made time s ≡ done s')
        × IsLogger T s'
        × ((j : Key) → flow_of T s' j ≡ (if made then aged time (flow_of T s j) else flow_of T s j))
        × (s.room ≤ s'.room)
  unfolding garbadge_collect_osdpi_flows
  garbadge_collect_osdpi_flows-aged false s v = (s, refl, v, λ j. refl, omega arith)
  garbadge_collect_osdpi_flows-aged true s v =
      let es = T.entries s.flows in
      let (s', run, v', flow, room) = collect_flows_lem es s v (lawful.distinct s.flows) (
        Listed-eq (λ k. lookup k es) (T.get s.flows) es (lawful.get-entries s.flows)
          (Listed-lookup es (lawful.distinct s.flows))) in
      (
        s',
        run,
        v',
        λ j. flow j ∙ elim (Option-cases (lookup j es)) [
          | inl e ↦ rw (lawful.get-entries s.flows j, e) refl
          | inr (p, e) ↦ rw e refl
        ],
        room,
      )
