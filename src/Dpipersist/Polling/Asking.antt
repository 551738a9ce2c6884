-- ===== src/Dpipersist/Polling/Asking.antt =====
-- dpipersist.c, the polling loop: what it asks for and what it stores, over many rounds.
use hwdb_opendpi.Prelude.{
  ℕ, ◌+◌, ◌≤◌, ◌≡◌, true, false, some, List, [], ◌∷◌, ◌++◌, ◌==◌, if◌then◌else◌, length, All, ◌<◌,
}
use hwdb_opendpi.Dpipersist.{Text, FlowData, DbCall, Answer}
use hwdb_opendpi.Dpipersist.Results.{Conversions}
use hwdb_opendpi.Dpipersist.Results.Memory.{converted, HasColumns}
use hwdb_opendpi.Dpipersist.Results.Storing.{latest, stored}
use hwdb_opendpi.Dpipersist.Polling.{
  time_delta, TimeVal, Delay, time_delay, Query, query_of, resp_size, Round, Polling,
}

-- A round in which the database answers with rows, in `len` bytes.
pub record Heard : Type 0 where
  pub at : TimeVal
  pub rows : List (List Text)
  pub len : ℕ

abbrev pub round : Heard → Round
round h = record {
  current = h.at;
  answer = some (record {
    len = h.len;
    unpacked = some (record { mtype = 0; rows = h.rows });
    status = false;
  });
}

abbrev pub rounds : List Heard → List Round
rounds [] = []
rounds (h ∷ hs) = round h ∷ rounds hs

abbrev pub all_flows : Conversions → List Heard → List FlowData
all_flows c [] = []
all_flows c (h ∷ hs) = converted c h.rows ++ all_flows c hs

-- The time that is asked from next: that of the last flow, or as before if there is none.
abbrev pub newest : ℕ → List FlowData → ℕ
newest last fs = if latest 0 fs == 0 then last else latest 0 fs

abbrev pub newest_of : Conversions → ℕ → List Heard → ℕ
newest_of c last [] = last
newest_of c last (h ∷ hs) = newest_of c (newest last (converted c h.rows)) hs

-- The delays and queries of the rounds, TIME_DELTA seconds apart from `e`.
abbrev pub asks : Conversions → ℕ → ℕ → List Heard → List (Delay × Query)
asks c e last [] = []
asks c e last (h ∷ hs) =
    (time_delay (e + time_delta) h.at, query_of last)
    ∷ asks c (e + time_delta) (newest last (converted c h.rows)) hs

abbrev pub IsHeard : ℕ → Heard → Type 0
IsHeard room h = All HasColumns h.rows × (length h.rows + 2 ≤ room) × (h.len < resp_size)

module _ (answer : Answer) (c : Conversions)
    (takes : (calls : List DbCall) (d : DbCall) → answer calls d ≡ true) where
  -- What one such round leaves.
  abbrev next : Heard → Polling → Polling
  next h p = record p {
    expected = p.expected + time_delta;
    last = newest p.last (converted c h.rows);
    shared = stored (converted c h.rows) p.shared;
    asked = p.asked ++ ((time_delay (p.expected + time_delta) h.at, query_of p.last) ∷ []);
  }
