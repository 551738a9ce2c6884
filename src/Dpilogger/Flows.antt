-- ===== src/Dpilogger/Flows.antt =====
-- dpilogger.c: the table of flows. libhashish's tables are the interface `HashTable`: a table maps
-- texts to pointers, and the structures that these point to stand in a heap. libhashish keeps the
-- pointer to a key. That of a flow is a block of its own. That of a host is an array of `get_id`,
-- which is gone when `get_id` returns, so the table of hosts has operations of its own.
pub mod Entries
pub mod Aging
pub mod Counting
pub mod Accounting
use hwdb_opendpi.Prelude.{
  ℕ, ◌+◌, ◌-◌, ◌%◌, ◌^◌, ◌≡◌, ◌≢◌, Bool, true, false, Option, none, some, List, [], ◌∷◌, ltb, ◌==◌,
  if◌then◌else◌, Outcome, done, exits, fault, ◌>>=◌,
}
use hwdb_opendpi.Stable.{str_eq}
use hwdb_opendpi.Dpilogger.{Ends, flow_key}

abbrev pub Key : Type 0
Key = List ℕ

-- What a search for a host comes to; at a `dead_key` it compares a key whose array is gone.
pub data HostLookup : Type 0 where
  host_at : ℕ → HostLookup
  no_host dead_key : HostLookup

-- `entries` is what an iterator yields, which may remove what it is at. `insert_host` is the table
-- of hosts when the array of the key is gone.
pub record HashTable : Type 1 where
  pub State : Type 0
  pub get : State → Key → Option ℕ
  pub insert : State → Key → ℕ → State
  pub remove : State → Key → State
  pub entries : State → List (Key × ℕ)
  pub Hosts : Type 0
  pub get_host : Hosts → Key → HostLookup
  pub insert_host : Hosts → Key → ℕ → Hosts

abbrev pub lookup : Key → List (Key × ℕ) → Option ℕ
lookup k [] = none
lookup k ((j, p) ∷ rest) = if str_eq k j then some p else lookup k rest

abbrev pub DistinctKeys : List (Key × ℕ) → Type 0
DistinctKeys [] = Unit {0}
DistinctKeys ((j, p) ∷ rest) = (lookup j rest ≡ none) × DistinctKeys rest

-- What libhashish does: `insert` is called for a key that `get` has not found, and so is
-- `insert_host`. A search passes a host's key again, and whatever it passed before.
pub record IsLawful (T : HashTable) : Type 0 where
  pub get-insert :
      (s : T.State) (k j : Key) (p : ℕ)
      → T.get s k ≡ none
      → T.get (T.insert s k p) j ≡ (if str_eq j k then some p else T.get s j)
  pub get-remove :
      (s : T.State) (k j : Key) → T.get (T.remove s k) j ≡ (if str_eq j k then none else T.get s j)
  pub get-entries : (s : T.State) (k : Key) → T.get s k ≡ lookup k (T.entries s)
  pub distinct : (s : T.State) → DistinctKeys (T.entries s)
  pub insert-dead :
      (s : T.Hosts) (k : Key) (p : ℕ)
      → T.get_host s k ≡ no_host
      → T.get_host (T.insert_host s k p) k ≡ dead_key
  pub stays-dead :
      (s : T.Hosts) (k j : Key) (p : ℕ)
      → T.get_host s j ≡ dead_key
      → T.get_host (T.insert_host s k p) j ≡ dead_key
  pub insert-host :
      (s : T.Hosts) (k j : Key) (p q : ℕ)
      → T.get_host (T.insert_host s k p) j ≡ host_at q
      → T.get_host s j ≡ host_at q

-- The fields of `struct osdpi_flow` that the program sets.
pub record OsdpiFlow : Type 0 where
  pub byte_count : ℕ
  pub pkt_count : ℕ
  pub first_pkt : ℕ
  pub last_pkt : ℕ
  pub ipoque_flow : ℕ

pub record OsdpiId : Type 0 where
  pub ip : List ℕ
  pub ipoque_id : ℕ

abbrev pub connection_timeout : ℕ
connection_timeout = 10

abbrev pub cleanup_timeout : ℕ
cleanup_timeout = 10

-- `a - b` in `uint32_t`
abbrev pub sub32 : ℕ → ℕ → ℕ
sub32 a b = (a + 2 ^ 32 - b) % 2 ^ 32

-- A write to the block at `p`.
abbrev pub write {ℓ} : {A : Type ℓ} → (ℕ → Option A) → ℕ → Option A → ℕ → Option A
write heap p v q = if q == p then v else heap q

module _ (T : HashTable) where
  -- The two tables of `obj_cfg`, the heap, the static `timer` and `frag_warning_used`. `room` is
  -- how many more blocks malloc gives the program before it returns NULL (libhashish's are not
  -- counted), and `brk` the address of the next one.
  pub record Logger : Type 0 where
    pub flows : T.State
    pub ids : T.Hosts
    pub flow_at : ℕ → Option OsdpiFlow
    pub id_at : ℕ → Option OsdpiId
    pub brk : ℕ
    pub room : ℕ
    pub timer : ℕ
    pub frag_warning_used : Bool

  -- malloc and calloc; NULL is `none`.
  unfoldable pub malloc : Logger → Option (ℕ × Logger)
  malloc s =
      if s.room == 0 then none else some (s.brk, record s { brk = s.brk + 1; room = s.room - 1 })

  -- One round of the iterator's loop. The key of a flow that is removed is not freed.
  unfoldable pub collect_flow : ℕ → Key → ℕ → Logger → Outcome Logger
  collect_flow time key p s = elim (s.flow_at p) [
    | none ↦ fault
    | some f ↦
        if ltb connection_timeout (sub32 time f.last_pkt)
        then done (record s {
          flows = T.remove s.flows key;
          flow_at = write s.flow_at p none;
          room = s.room + 2;
        })
        else done s
  ]

  unfoldable pub collect_flows : ℕ → List (Key × ℕ) → Logger → Outcome Logger
  unfolding collect_flow
  collect_flows time [] s = done s
  collect_flows time ((key, p) ∷ rest) s = collect_flow time key p s >>= collect_flows time rest

  -- `made` is whether `hi_iterator_create` succeeds; if not, nothing is collected.
  unfoldable pub garbadge_collect_osdpi_flows : Bool → ℕ → Logger → Outcome Logger
  unfolding collect_flows
  garbadge_collect_osdpi_flows made time s =
      if made then collect_flows time (T.entries s.flows) s else done s

  -- The first statements of get_osdpi_flow.
  unfoldable pub clean_up : Bool → ℕ → Logger → Outcome Logger
  unfolding garbadge_collect_osdpi_flows
  clean_up made time s =
      if s.timer == 0
      then done (record s { timer = time })
      else if ltb cleanup_timeout (sub32 time s.timer)
      then (garbadge_collect_osdpi_flows made time s >>= λ t. done (record t { timer = time }))
      else done s

  -- A packet of a known flow.
  unfoldable pub count_packet : ℕ → ℕ → ℕ → Logger → Outcome (ℕ × Logger)
  count_packet ipsize time p s = elim (s.flow_at p) [
    | none ↦ fault
    | some f ↦
        let f' = record f {
          byte_count = (f.byte_count + ipsize) % 2 ^ 32;
          pkt_count = (f.pkt_count + 1) % 2 ^ 32;
          last_pkt = time;
        } in
        done (p, record s { flow_at = write s.flow_at p (some f') })
  ]

  -- A packet of a new flow: two blocks, and an entry of the table.
  unfoldable pub new_flow : ℕ → ℕ → Key → Logger → Outcome (ℕ × Logger)
  unfolding malloc
  new_flow ipsize time key s = elim (malloc s) [
    | none ↦ exits 1
    | some (p, s1) ↦ elim (malloc s1) [
      | none ↦ exits 1
      | some (q, s2) ↦
          let f : OsdpiFlow = record {
            byte_count = ipsize;
            pkt_count = 1;
            first_pkt = time;
            last_pkt = time;
            ipoque_flow = q;
          } in
          done (
            p,
            record s2 { flow_at = write s2.flow_at p (some f); flows = T.insert s2.flows key p },
          )
    ]
  ]

  -- `name` is "-TCP" or "-UDP". The block of `flow_key` is not checked, and freed nowhere.
  unfoldable pub get_osdpi_flow :
      Bool → (ℕ → List ℕ) → List ℕ → Ends → ℕ → ℕ → Logger → Outcome (ℕ × Logger)
  unfolding clean_up malloc count_packet new_flow
  get_osdpi_flow made inet_ntoa name e ipsize time s = clean_up made time s >>= λ t.
      elim (malloc t) [
        | none ↦ fault
        | some (block, t1) ↦
            let key = flow_key inet_ntoa name e in
            elim (T.get t1.flows key) [
              | some p ↦ count_packet ipsize time p t1
              | none ↦ new_flow ipsize time key t1
            ]
      ]
