-- ===== src/Tests/Persist.antt =====
-- The theorems about dpipersist.c at concrete inputs.
use hwdb_opendpi.Prelude.{
  ℕ, ◌*◌, ◌≡◌, ◌≢◌, refl, true, false, some, none, List, [], ◌∷◌, arith, length, ◌==◌, done,
}
use hwdb_opendpi.Dpipersist.{Text, FlowData, put, db_create, db_open, Answer, Shared}
use hwdb_opendpi.Dpipersist.Results.{Conversions, convert_row, processresults}
use hwdb_opendpi.Dpipersist.Results.Memory.{converted}
use hwdb_opendpi.Dpipersist.Results.Storing.{processresults-stops}
use hwdb_opendpi.Dpipersist.Rotation.{
  leave, Owner, nobody, handler_thread, dead_handler, main_takes, main_releases, handler_takes,
  Reach, stays, goes,
}
use hwdb_opendpi.Dpipersist.Rotation.Protocol.{
  after_all, closed, misused, IsOpen, WellUsed, Reach-WellUsed, rotation_deadlocks,
}
use hwdb_opendpi.Dpipersist.Polling.{time_delay, Polling}
use hwdb_opendpi.Dpipersist.Polling.Schedule.{EndsAt, time_delay-EndsAt}
use hwdb_opendpi.Dpipersist.Polling.Asking.{Heard}
use hwdb_opendpi.Dpipersist.Setup.{Answers, setup}
use hwdb_opendpi.Dpipersist.Setup.Release.{tidy, tidy-setup}

abbrev first : Text → ℕ
first [] = 0
first (a ∷ rest) = a

abbrev conversions : Conversions
conversions = record {
  string_to_timestamp = first;
  atoi = first;
  atol = first;
  inet_aton = λ t. none;
  unset = 0;
}

-- A row whose first column is the time `t`.
abbrev row : ℕ → List Text
row t = (t ∷ []) ∷ (6 ∷ []) ∷ [] ∷ (80 ∷ []) ∷ [] ∷ (81 ∷ []) ∷ (1 ∷ []) ∷ (60 ∷ []) ∷ []

abbrev shared : Shared
shared = record {
  calls = db_create ∷ db_open [] ∷ [];
  is_open = true;
  recno = 0;
  database = [];
  rotation = 3600;
  must_exit = false;
  exit_status = 0;
}

abbrev takes_one : Answer
takes_one calls c = length calls == 2

abbrev flow_at : ℕ → FlowData
flow_at t = record {
  tstamp = t;
  proto = 6;
  ip_src = 0;
  sport = 80;
  ip_dst = 0;
  dport = 81;
  packets = 1;
  bytes = 60;
}

split : converted conversions (row 7 ∷ row 9 ∷ []) ≡ flow_at 7 ∷ flow_at 9 ∷ []
unfolding convert_row
split = refl

processresults_example :
    processresults takes_one conversions
      (some (record { mtype = 0; rows = row 7 ∷ row 9 ∷ [] }))
      false
      5
      shared
    ≡ done (
      7,
      5,
      record shared {
        calls = db_create ∷ db_open [] ∷ put 1 (flow_at 7) ∷ put 2 (flow_at 9) ∷ [];
        recno = 2;
        must_exit = true;
        exit_status = 255;
      },
    )
processresults_example =
    processresults-stops takes_one conversions (row 7 ∷ row 9 ∷ []) 5 shared
      (omega arith, (omega arith, tt)) (omega arith) refl (flow_at 7 ∷ []) [] (flow_at 9) split
      (refl, tt) refl

abbrev takes_all : Answer
takes_all calls c = true

abbrev polling : Polling
polling = record { expected = 100; last = 0; room = 3; shared = shared; asked = [] }

abbrev heard : List Heard
heard =
    record { at = record { tv_sec = 101; tv_usec = 5 }; rows = row 7 ∷ []; len = 40 }
    ∷ record { at = record { tv_sec = 105; tv_usec = 0 }; rows = []; len = 0 }
    ∷ []

shared-IsOpen : IsOpen shared
shared-IsOpen = record { usable = refl; handle = refl }

Reach_example : WellUsed shared × (handler_thread ≢ dead_handler → shared.is_open ≡ true)
Reach_example =
    Reach-WellUsed takes_all (λ t. []) (λ t. 60) 1 shared shared handler_thread shared-IsOpen
      (goes (goes (goes stays main_takes) main_releases) handler_takes)

abbrev refuses : Answer
refuses calls c = false

rotation_example :
    (s1 : Shared) × Reach refuses (λ t. []) (λ t. 60) 1 nobody shared dead_handler s1
    × (s1.must_exit ≡ true)
    × ((o : Owner) (s2 : Shared)
        → Reach refuses (λ t. []) (λ t. 60) 1 dead_handler s1 o s2
        → o ≡ dead_handler)
    × (after_all closed (leave s1).calls ≡ misused)
rotation_example = rotation_deadlocks refuses (λ t. []) (λ t. 60) 1 shared shared-IsOpen refl

time_delay_example :
    EndsAt
      (105 * 1000000000)
      (record { tv_sec = 101; tv_usec = 5 })
      (time_delay 105 (record { tv_sec = 101; tv_usec = 5 }))
time_delay_example = time_delay-EndsAt 105 (record { tv_sec = 101; tv_usec = 5 }) (omega arith)

abbrev no_mutex : Answers
no_mutex = record {
  thread_starts = true;
  rpc_starts = true;
  connects = true;
  env_creates = true;
  env_opens = true;
  db_creates = true;
  db_opens = true;
  mutex_allocates = false;
  mutex_frees = true;
  db_closes = true;
  env_closes = true;
}

setup_example : tidy (setup no_mutex 0) ≡ false
setup_example = tidy-setup no_mutex 0
