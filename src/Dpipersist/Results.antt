-- ===== src/Dpipersist/Results.antt =====
-- dpipersist.c: `mon_convert`, `mon_free` and `processresults`, what the main thread does with an
-- answer of the database. `room` is how many more blocks malloc gives before it returns NULL;
-- calloc gives a block also for no elements, as glibc's does.
pub mod Memory
pub mod Storing
use hwdb_opendpi.Prelude.{
  ℕ, zero, suc, ◌+◌, ◌-◌, ◌%◌, ◌^◌, Bool, true, false, Option, some, none, List, [], ◌∷◌, ◌++◌, ltb,
  ◌==◌, if◌then◌else◌, length, replicate, get_or, set, Outcome, done, fault, ◌>>=◌,
}
use hwdb_opendpi.Dpipersist.{Text, FlowData, DbCall, put, Answer, Shared}

-- The conversions of texts. atoi gives the 32-bit pattern. inet_aton may refuse, and then leaves
-- the field as malloc gave it, which is `unset`.
pub record Conversions : Type 0 where
  pub string_to_timestamp : Text → ℕ
  pub atoi : Text → ℕ
  pub atol : Text → ℕ
  pub inet_aton : Text → Option ℕ
  pub unset : ℕ

-- What rtab_unpack gives.
pub record Rtab : Type 0 where
  pub mtype : ℕ
  pub rows : List (List Text)

-- `cells` is the array `data`.
pub record FlowResults : Type 0 where
  pub nflows : ℕ
  pub cells : List (Option FlowData)

-- The loop ends at the first NULL.
unfoldable pub mon_free_cells : List (Option FlowData) → ℕ → ℕ
mon_free_cells [] room = room
mon_free_cells (none ∷ cells) room = room
mon_free_cells (some p ∷ cells) room = mon_free_cells cells (room + 1)

unfoldable pub mon_free : Option FlowResults → ℕ → ℕ
unfolding mon_free_cells
mon_free none room = room
mon_free (some p) room = mon_free_cells p.cells room + 2

abbrev pub or_unset : ℕ → Option ℕ → ℕ
or_unset d none = d
or_unset d (some a) = a

-- A row of at least eight columns.
unfoldable pub convert_row : Conversions → List Text → FlowData
convert_row c columns = record {
  tstamp = c.string_to_timestamp (get_or columns 0 []);
  proto = c.atoi (get_or columns 1 []) % 2 ^ 8;
  ip_src = or_unset c.unset (c.inet_aton (get_or columns 2 []));
  sport = c.atoi (get_or columns 3 []) % 2 ^ 16;
  ip_dst = or_unset c.unset (c.inet_aton (get_or columns 4 []));
  dport = c.atoi (get_or columns 5 []) % 2 ^ 16;
  packets = c.atol (get_or columns 6 []);
  bytes = c.atol (get_or columns 7 []);
}

unfoldable pub convert_rows :
    Conversions → List (List Text) → ℕ → FlowResults → ℕ → Outcome (Option FlowResults × ℕ)
unfolding mon_free convert_row
convert_rows c [] i ans room = done (some ans, room)
convert_rows c (columns ∷ rows) i ans zero = done (none, mon_free (some ans) zero)
convert_rows c (columns ∷ rows) i ans (suc room) = elim (ltb (length columns) 8) [
  | true ↦ fault
  | false ↦
      convert_rows c rows (i + 1)
        (record ans { cells = set ans.cells i (some (convert_row c columns)) }) room
]

-- The two blocks of the result, and then the rows.
unfoldable pub mon_convert : Conversions → Option Rtab → ℕ → Outcome (Option FlowResults × ℕ)
unfolding convert_rows
mon_convert c none room = done (none, room)
mon_convert c (some t) room =
    let n = length t.rows in
    if t.mtype == 0
    then (if ltb room 2
        then done (none, room)
        else convert_rows c t.rows 0 (record { nflows = n; cells = replicate n none }) (room - 2))
    else done (none, room)

-- One call of `put`, on a handle that must be open.
unfoldable pub store_flow : Answer → FlowData → Shared → Outcome (Bool × Shared)
store_flow answer f s =
    let recno = (s.recno + 1) % 2 ^ 32 in
    let s1 : Shared = record s { recno = recno; calls = s.calls ++ (put recno f ∷ []) } in
    if s.is_open
    then (if answer s.calls (put recno f)
        then done (true, s1)
        else done (false, record s1 { must_exit = true; exit_status = 255 }))
    else fault

-- The loop, and how many flows were stored when it ends.
unfoldable pub store_flows : Answer → List (Option FlowData) → Shared → Outcome (ℕ × Shared)
unfolding store_flow
store_flows answer [] s = done (0, s)
store_flows answer (none ∷ cells) s = fault
store_flows answer (some f ∷ cells) s = store_flow answer f s >>= λ r. elim r.0 [
  | true ↦ store_flows answer cells r.1 >>= λ q. done (q.0 + 1, q.1)
  | false ↦ done (0, r.1)
]

abbrev pub tstamp_of : Option FlowData → ℕ
tstamp_of none = 0
tstamp_of (some f) = f.tstamp

abbrev pub last_tstamp : ℕ → List (Option FlowData) → ℕ
last_tstamp zero cells = 0
last_tstamp (suc i) cells = tstamp_of (get_or cells i none)

-- `results` is what rtab_unpack gives, and `fails` the result of rtab_status. The lock is held from
-- the conversion to the end of the loop (Rotation.antt). `p` is read without a test for NULL.
unfoldable pub processresults :
    Answer → Conversions → Option Rtab → Bool → ℕ → Shared → Outcome (ℕ × ℕ × Shared)
processresults answer c none fails room s = done (0, room, s)
processresults answer c (some t) true room s = done (0, room, s)
processresults answer c (some t) false room s = mon_convert c (some t) room >>= λ r. elim r.0 [
  | none ↦ fault
  | some p ↦ store_flows answer p.cells s >>= λ q.
      done (last_tstamp q.0 p.cells, mon_free (some p) r.1, q.1)
]
