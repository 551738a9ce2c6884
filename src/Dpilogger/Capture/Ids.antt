-- ===== src/Dpilogger/Capture/Ids.antt =====
-- dpilogger.c, `get_id`: the states of the hosts, what a call does to their table, and that
-- counting a packet leaves it alone.
use hwdb_opendpi.Prelude.{
  ◌≢◌, ℕ, ◌+◌, ◌-◌, ◌%◌, ◌^◌, ◌≤◌, ◌<◌, ◌≡◌, ◌⊎◌, refl, ◌∙◌, inl, inr, Bool, true, false, some,
  List, [], ◌∷◌, arith, ◌==◌, if◌then◌else◌, Bool-cases, Option-cases, ==_of_ne, Outcome, done,
  exits, fault, ◌>>=◌,
}
use hwdb_opendpi.Dpilogger.{Ends, flow_key}
use hwdb_opendpi.Dpilogger.Flows.{
  HostLookup, host_at, no_host, dead_key, Key, HashTable, IsLawful, OsdpiId, write, Logger, malloc,
  collect_flow, collect_flows, garbadge_collect_osdpi_flows, clean_up, count_packet, new_flow,
  get_osdpi_flow,
}
use hwdb_opendpi.Dpilogger.Capture.{get_id}

pub HostLookup-cases :
    (x : HostLookup) → (x ≡ dead_key) ⊎ ((x ≡ no_host) ⊎ ((p : ℕ) × (x ≡ host_at p)))
HostLookup-cases dead_key = inl refl
HostLookup-cases no_host = inr (inl refl)
HostLookup-cases (host_at p) = inr (inr (p, refl))

module _ (T : HashTable) where
  -- Every pointer of the table of hosts leads to one.
  pub record HasIds (s : Logger T) : Type 0 where
    pub live :
        (k : Key) (p : ℕ) → T.get_host s.ids k ≡ host_at p → (d : OsdpiId) × (s.id_at p ≡ some d)
    pub below : (k : Key) (p : ℕ) → T.get_host s.ids k ≡ host_at p → p < s.brk

  -- The hosts' part of the state is the same, and no block is reused.
  pub record SameIds (s s' : Logger T) : Type 0 where
    pub ids : s'.ids ≡ s.ids
    pub id_at : s'.id_at ≡ s.id_at
    pub brk : s.brk ≤ s'.brk

  pub SameIds-HasIds : (s s' : Logger T) → SameIds s s' → HasIds s → HasIds s'
  SameIds-HasIds s s' same h = record {
    live = λ k p e. rw same.id_at (h.live k p (rw same.ids at e));
    below = λ k p e. omega (arith, h.below k p (rw same.ids at e), same.brk);
  }

  SameIds-trans : (s t u : Logger T) → SameIds s t → SameIds t u → SameIds s u
  SameIds-trans s t u a b = record {
    ids = b.ids ∙ a.ids;
    id_at = b.id_at ∙ a.id_at;
    brk = omega (arith, a.brk, b.brk);
  }

  -- The state that an operation leaves, if it does, is found in its result by `st`.
  pub data KeepsIds {A : Type 0} (st : A → Logger T) (s : Logger T) : Outcome A → Type 0 where
    leaves : {a : A} → SameIds s (st a) → KeepsIds st s (done a)
    stops : {n : ℕ} → KeepsIds st s (exits n)
    fails : KeepsIds st s fault

  SameIds-KeepsIds :
      {A : Type 0} (st : A → Logger T) (s t : Logger T) {o : Outcome A}
      → SameIds s t
      → KeepsIds st t o
      → KeepsIds st s o
  SameIds-KeepsIds st s t same (leaves {a = a} h) = leaves (SameIds-trans s t (st a) same h)
  SameIds-KeepsIds st s t same stops = stops
  SameIds-KeepsIds st s t same fails = fails

  KeepsIds-bind :
      {A : Type 0} (st : A → Logger T) (s : Logger T) {o : Outcome (Logger T)}
      (f : Logger T → Outcome A)
      → KeepsIds (λ t. t) s o
      → ((t : Logger T) → KeepsIds st t (f t))
      → KeepsIds st s (o >>= f)
  KeepsIds-bind st s f (leaves {a = t} h) k = SameIds-KeepsIds st s t h (k t)
  KeepsIds-bind st s f stops k = stops
  KeepsIds-bind st s f fails k = fails

  KeepsIds-if :
      {A : Type 0} (st : A → Logger T) (s : Logger T) (b : Bool) {x y : Outcome A}
      → KeepsIds st s x
      → KeepsIds st s y
      → KeepsIds st s (if b then x else y)
  KeepsIds-if st s true h k = h
  KeepsIds-if st s false h k = k

  collect_flow-KeepsIds :
      (time : ℕ) (key : Key) (p : ℕ) (s : Logger T)
      → KeepsIds (λ t. t) s (collect_flow T time key p s)
  unfolding collect_flow
  collect_flow-KeepsIds time key p s = elim (Option-cases (s.flow_at p)) [
    | inl e ↦ rw (e, collect_flow) fails
    | inr (f, e) ↦
        rw (e, collect_flow)
          (KeepsIds-if _ s _ (leaves (record { ids = refl; id_at = refl; brk = omega arith }))
            (leaves (record { ids = refl; id_at = refl; brk = omega arith })))
  ]

  collect_flows-KeepsIds :
      (time : ℕ) (es : List (Key × ℕ)) (s : Logger T)
      → KeepsIds (λ t. t) s (collect_flows T time es s)
  unfolding collect_flows
  collect_flows-KeepsIds time [] s = leaves (record { ids = refl; id_at = refl; brk = omega arith })
  collect_flows-KeepsIds time ((key, p) ∷ es) s =
      KeepsIds-bind _ s _ (collect_flow-KeepsIds time key p s) (collect_flows-KeepsIds time es)

  garbadge_collect_osdpi_flows-KeepsIds :
      (made : Bool) (time : ℕ) (s : Logger T)
      → KeepsIds (λ t. t) s (garbadge_collect_osdpi_flows T made time s)
  unfolding garbadge_collect_osdpi_flows
  garbadge_collect_osdpi_flows-KeepsIds made time s =
      KeepsIds-if _ s made (collect_flows-KeepsIds time (T.entries s.flows) s)
        (leaves (record { ids = refl; id_at = refl; brk = omega arith }))

  clean_up-KeepsIds :
      (made : Bool) (time : ℕ) (s : Logger T) → KeepsIds (λ t. t) s (clean_up T made time s)
  unfolding clean_up
  clean_up-KeepsIds made time s =
      KeepsIds-if _ s _ (leaves (record { ids = refl; id_at = refl; brk = omega arith })) (
        KeepsIds-if _ s _
          (KeepsIds-bind _ s _ (garbadge_collect_osdpi_flows-KeepsIds made time s)
            (λ t. leaves (record { ids = refl; id_at = refl; brk = omega arith })))
          (leaves (record { ids = refl; id_at = refl; brk = omega arith })))

  count_packet-KeepsIds :
      (ipsize time p : ℕ) (s : Logger T) → KeepsIds (λ r. r.1) s (count_packet T ipsize time p s)
  unfolding count_packet
  count_packet-KeepsIds ipsize time p s = elim (Option-cases (s.flow_at p)) [
    | inl e ↦ rw (e, count_packet) fails
    | inr (f, e) ↦
        rw (e, count_packet) (leaves (record { ids = refl; id_at = refl; brk = omega arith }))
  ]

  new_flow-KeepsIds :
      (ipsize time : ℕ) (key : Key) (s : Logger T)
      → KeepsIds (λ r. r.1) s (new_flow T ipsize time key s)
  unfolding new_flow malloc
  new_flow-KeepsIds ipsize time key s = elim (Bool-cases (s.room == 0)) [
    | inl e ↦ rw (e, new_flow) stops
    | inr e ↦ elim (Bool-cases (s.room - 1 == 0)) [
      | inl e' ↦ rw (e, new_flow, e') stops
      | inr e' ↦
          rw (e, new_flow, e') (leaves (record { ids = refl; id_at = refl; brk = omega arith }))
    ]
  ]

  -- Counting a packet leaves the hosts alone.
  pub get_osdpi_flow-KeepsIds :
      (made : Bool) (inet_ntoa : ℕ → List ℕ) (name : List ℕ) (e : Ends) (ipsize time : ℕ)
      (s : Logger T)
      → KeepsIds (λ r. r.1) s (get_osdpi_flow T made inet_ntoa name e ipsize time s)
  unfolding get_osdpi_flow malloc
  get_osdpi_flow-KeepsIds made inet_ntoa name e ipsize time s =
      KeepsIds-bind _ s _ (clean_up-KeepsIds made time s) (λ t.
        let key = flow_key inet_ntoa name e in
        let t1 : Logger T = record t { brk = t.brk + 1; room = t.room - 1 } in
        let taken : SameIds t t1 = record { ids = refl; id_at = refl; brk = omega arith } in
        elim (Bool-cases (t.room == 0)) [
          | inl r ↦ rw r fails
          | inr r ↦ elim (Option-cases (T.get t.flows key)) [
            | inl g ↦
                rw (r, g) (SameIds-KeepsIds _ t t1 taken (new_flow-KeepsIds ipsize time key t1))
            | inr (p, g) ↦
                rw (r, g) (SameIds-KeepsIds _ t t1 taken (count_packet-KeepsIds ipsize time p t1))
          ]
        ])

module _ (T : HashTable) where
  -- The table of hosts behind a call for the key `k` that returns.
  abbrev pub with_host : Logger T → Key → T.Hosts
  with_host s k = elim (T.get_host s.ids k) [
    | no_host ↦ T.insert_host s.ids k s.brk
    | host_at p ↦ s.ids
    | dead_key ↦ s.ids
  ]

module _ (T : HashTable) (lawful : IsLawful T) (inet_ntoa : ℕ → List ℕ) where
  -- What a call of get_id leaves alone.
  pub record Identified (k : Key) (s s' : Logger T) : Type 0 where
    pub flows : s'.flows ≡ s.flows
    pub flow_at : s'.flow_at ≡ s.flow_at
    pub timer : s'.timer ≡ s.timer
    pub brk : s.brk ≤ s'.brk
    pub room : s.room ≤ s'.room + 2
    pub ids : s'.ids ≡ with_host T s k
    pub hosts : HasIds T s'

  module _ (s : Logger T) (h : HasIds T s) (ip : ℕ) (four_bytes : List ℕ) where
    abbrev str_ip : Key
    str_ip = inet_ntoa (ip % 2 ^ 32)

    abbrev added : Logger T
    added = record s {
      brk = s.brk + 1 + 1;
      room = s.room - 1 - 1;
      id_at = write s.id_at s.brk (some (record { ip = four_bytes; ipoque_id = s.brk + 1 }));
      ids = T.insert_host s.ids str_ip s.brk;
    }

    added-HasIds : HasIds T added
    added-HasIds = record {
      live = λ k q e.
          let old = lawful.insert-host s.ids str_ip k s.brk q e in
          let lt = h.below k q old in
          let (d, at) = h.live k q old in (d, rw (==_of_ne q s.brk (omega (arith, lt))) at);
      below = λ k q e.
          let lt = h.below k q (lawful.insert-host s.ids str_ip k s.brk q e) in omega (arith, lt);
    }

    -- While two blocks are left and the search for the host reads no key that is gone, get_id gives
    -- a host's state, and leaves the flows alone.
    pub get_id-Identified :
        2 ≤ s.room
        → T.get_host s.ids str_ip ≢ dead_key
        → (i : ℕ) × (s' : Logger T) × (get_id T inet_ntoa ip four_bytes s ≡ done (i, s'))
          × Identified str_ip s s'
    unfolding get_id malloc
    get_id-Identified room readable = elim (HostLookup-cases (T.get_host s.ids str_ip)) [
      | inl dead ↦ absurd (readable dead)
      | inr (inl absent) ↦ (
        s.brk + 1,
        added,
        rw (absent, get_id, ==_of_ne s.room 0 (omega arith), ==_of_ne (s.room - 1) 0 (omega arith))
            refl,
        record {
          flows = refl;
          flow_at = refl;
          timer = refl;
          brk = omega arith;
          room = omega arith;
          ids = rw (absent, with_host) refl;
          hosts = added-HasIds;
        },
      )
      | inr (inr (p, known)) ↦
          let (d, at) = h.live str_ip p known in
          (
            d.ipoque_id,
            s,
            rw (known, get_id, at) refl,
            record {
              flows = refl;
              flow_at = refl;
              timer = refl;
              brk = omega arith;
              room = omega arith;
              ids = rw (known, with_host) refl;
              hosts = h;
            },
          )
    ]
