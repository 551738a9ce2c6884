-- ===== src/Dpilogger/Flows/Accounting.antt =====
-- dpilogger.c, `get_osdpi_flow`: the table of flows as a map from keys to counters.
use hwdb_opendpi.Prelude.{
  ℕ, ◌+◌, ◌-◌, ◌%◌, ◌^◌, ◌≤◌, ◌≡◌, refl, ◌∙◌, inl, inr, Bool, false, Option, none, some, List,
  arith, ltb, ◌==◌, if◌then◌else◌, Bool-cases, Option-cases, ==_of_ne, Outcome, ◌>>=◌, done,
}
use hwdb_opendpi.Stable.{str_eq}
use hwdb_opendpi.Dpilogger.{Ends, flow_key}
use hwdb_opendpi.Dpilogger.Flows.{
  Key, HashTable, IsLawful, OsdpiFlow, cleanup_timeout, sub32, Logger, malloc, clean_up,
  count_packet, new_flow, get_osdpi_flow,
}
use hwdb_opendpi.Dpilogger.Flows.Aging.{
  pointed, aged, flow_of, IsLogger, garbadge_collect_osdpi_flows-aged,
}
use hwdb_opendpi.Dpilogger.Flows.Counting.{
  Counted, stored, stored-Counted, entered, entered-Counted,
}

-- The counters after a packet of `ipsize` bytes at `time`; a new flow begins with it. `fresh` is
-- the address of the detection's state.
abbrev pub counted : ℕ → ℕ → ℕ → Option OsdpiFlow → OsdpiFlow
counted ipsize time fresh none = record {
  byte_count = ipsize;
  pkt_count = 1;
  first_pkt = time;
  last_pkt = time;
  ipoque_flow = fresh;
}
counted ipsize time fresh (some f) = record f {
  byte_count = (f.byte_count + ipsize) % 2 ^ 32;
  pkt_count = (f.pkt_count + 1) % 2 ^ 32;
  last_pkt = time;
}

module _ (T : HashTable) where
  -- Whether a packet at `time` sets off a collection, which happens if its iterator is made.
  abbrev pub collects : Bool → ℕ → Logger T → Bool
  collects made time s =
      if s.timer == 0
      then false
      else if ltb cleanup_timeout (sub32 time s.timer)
      then made
      else false

  -- The flow of the key `j` when a packet at `time` is counted.
  abbrev pub current : Bool → ℕ → Logger T → Key → Option OsdpiFlow
  current made time s j = if collects made time s then aged time (flow_of T s j) else flow_of T s j

module _ (T : HashTable) (lawful : IsLawful T) where
  with_timer : (time : ℕ) (s : Logger T) → IsLogger T s → IsLogger T (record s { timer = time })
  with_timer time s v = record { live = v.live; below = v.below; apart = v.apart }

  clean_up_lem :
      (made : Bool) (time : ℕ) (s : Logger T)
      → IsLogger T s
      → (s' : Logger T) × (clean_up T made time s ≡ done s')
        × IsLogger T s'
        × ((j : Key) → flow_of T s' j ≡ current T made time s j)
        × (s.room ≤ s'.room)
  unfolding clean_up
  clean_up_lem made time s v = elim (Bool-cases (s.timer == 0)) [
    | inl z ↦
        (record s { timer = time }, rw z refl, with_timer time s v, λ j. rw z refl, omega arith)
    | inr z ↦ elim (Bool-cases (ltb cleanup_timeout (sub32 time s.timer))) [
      | inl due ↦
          let (s1, run, v1, flow, room) =
            garbadge_collect_osdpi_flows-aged T lawful time made s v in
          (
            record s1 { timer = time },
            rw (z, due, run) refl,
            with_timer time s1 v1,
            λ j. rw (z, due) (flow j),
            room,
          )
      | inr early ↦ (s, rw (z, early) refl, v, λ j. rw (z, early) refl, omega arith)
    ]
  ]

  -- Behind the clean-up and the block of the key.
  module _ (ipsize time : ℕ) (key : Key) (t : Logger T) (v : IsLogger T t) (room : 2 ≤ t.room) where
    abbrev Recorded : (Logger T → Outcome (ℕ × Logger T)) → Type 0
    Recorded run =
        (s' : Logger T) × (p : ℕ) × (fresh : ℕ) × (run t ≡ done (p, s'))
        × Counted T lawful t s' key (counted ipsize time fresh (flow_of T t key)) p

    known_flow : (p : ℕ) → T.get t.flows key ≡ some p → Recorded (count_packet T ipsize time p)
    unfolding count_packet
    known_flow p e =
        let (f, at) = v.live key p e in
        let f' = counted ipsize time 0 (some f) in
        (
          stored T lawful t v key p f' e,
          p,
          0,
          rw (at, count_packet) refl,
          rw (flow_of, e, pointed, at) (stored-Counted T lawful t v key p f' e),
        )

    other_flow : T.get t.flows key ≡ none → Recorded (new_flow T ipsize time key)
    unfolding new_flow malloc
    other_flow e =
        let f' = counted ipsize time (t.brk + 1) none in
        (
          entered T lawful t v key f' e,
          t.brk,
          t.brk + 1,
          rw (==_of_ne t.room 0 (omega arith), new_flow, ==_of_ne (t.room - 1) 0 (omega arith))
              refl,
          rw (flow_of, e, pointed) (entered-Counted T lawful t v key f' e),
        )

  -- The block of `flow_key` is taken.
  abbrev pub with_block : Logger T → Logger T
  with_block t = record t { brk = t.brk + 1; room = t.room - 1 }

  with_block-IsLogger : (t : Logger T) → IsLogger T t → IsLogger T (with_block t)
  with_block-IsLogger t v = record {
    live = v.live;
    below = λ k p e. omega (arith, v.below k p e);
    apart = v.apart;
  }

  -- The end of get_osdpi_flow.
  abbrev pub lookup_or_new : ℕ → ℕ → Key → Logger T → Outcome (ℕ × Logger T)
  lookup_or_new ipsize time key t = elim (T.get t.flows key) [
    | some p ↦ count_packet T ipsize time p t
    | none ↦ new_flow T ipsize time key t
  ]

  recorded :
      (ipsize time : ℕ) (key : Key) (t : Logger T) (v : IsLogger T t) (room : 2 ≤ t.room)
      → Recorded ipsize time key t v room (lookup_or_new ipsize time key)
  recorded ipsize time key t v room = elim (Option-cases (T.get t.flows key)) [
    | inl e ↦
        let (s', p, fresh, run, c) = other_flow ipsize time key t v room e in
        (s', p, fresh, rw (e, lookup_or_new) run, c)
    | inr (p, e) ↦
        let (s', q, fresh, run, c) = known_flow ipsize time key t v room p e in
        (s', q, fresh, rw (e, lookup_or_new) run, c)
  ]

  malloc_lem : (t : Logger T) → 1 ≤ t.room → malloc T t ≡ some (t.brk, with_block t)
  unfolding malloc
  malloc_lem t h = rw (==_of_ne t.room 0 (omega arith)) refl

  get_osdpi_flow_steps :
      (made : Bool) (inet_ntoa : ℕ → List ℕ) (name : List ℕ) (e : Ends) (ipsize time : ℕ)
      (s t : Logger T)
      → clean_up T made time s ≡ done t
      → 1 ≤ t.room
      → get_osdpi_flow T made inet_ntoa name e ipsize time s
        ≡ lookup_or_new ipsize time (flow_key inet_ntoa name e) (with_block t)
  unfolding get_osdpi_flow
  get_osdpi_flow_steps made inet_ntoa name e ipsize time s t clean room =
      rw clean (rw (malloc_lem t room, ◌>>=◌) refl)

  -- While malloc has three blocks left, a packet of `ipsize` bytes at `time` is counted: the flow
  -- of its key gets the packet, or begins with it, and its address is returned. Every other flow is
  -- as before, but for those that a due collection removes; it removes none if libhashish cannot
  -- make its iterator.
  pub get_osdpi_flow-counted :
      (made : Bool) (inet_ntoa : ℕ → List ℕ) (name : List ℕ) (e : Ends) (ipsize time : ℕ)
      (s : Logger T)
      → IsLogger T s
      → 3 ≤ s.room
      → let key = flow_key inet_ntoa name e in
        (s' : Logger T) × (p : ℕ) × (fresh : ℕ) × (get_osdpi_flow T made inet_ntoa name e ipsize
            time s
          ≡ done (p, s'))
        × IsLogger T s'
        × (T.get s'.flows key ≡ some p)
        × ((j : Key)
            → flow_of T s' j ≡ (
                if str_eq j key
                then some (counted ipsize time fresh (current T made time s key))
                else current T made time s j))
  get_osdpi_flow-counted made inet_ntoa name e ipsize time s v room =
      let key = flow_key inet_ntoa name e in
      let (t, clean, v1, flow, more) = clean_up_lem made time s v in
      let (s', p, fresh, run, c) =
        recorded ipsize time key (with_block t) (with_block-IsLogger t v1) (omega arith) in
      (
        s',
        p,
        fresh,
        get_osdpi_flow_steps made inet_ntoa name e ipsize time s t clean (omega arith) ∙ run,
        c.valid,
        c.found,
        λ j. c.flow j ∙ rw (← flow j, ← flow key) refl,
      )
