-- ===== src/Tests/Tables.antt =====
-- The theorems about endpoints, queues, services and connection records at concrete inputs.
use hwdb_opendpi.Prelude.{
  ℕ, ◌%◌, ◌^◌, ◌<◌, ◌≡◌, ◌≢◌, ◌↔◌, ◌⊎◌, refl, true, none, some, List, [], ◌∷◌, ◌++◌, arith, length,
  replicate, if◌then◌else◌,
}
use hwdb_opendpi.Endpoint.{
  RpcEndpoint, ByteOrder, memeq, endpoint_equal, endpoint_hash, endpoint_complete,
}
use hwdb_opendpi.Endpoint.Equal.{endpoint_equal-subport}
use hwdb_opendpi.Tslist.{Heap, Item, ListHead, blocked, tsl_append, tsl_remove}
use hwdb_opendpi.Tslist.Queue.{Represents, Leaves, tsl_append-Leaves, tsl_remove-Leaves}
use hwdb_opendpi.Stable.{
  Stable, SRecord, Name, stable_size, hash, hash_loop, stable_init, stable_lookup, stable_create,
  str_eq, find,
}
use hwdb_opendpi.Stable.Lookup.{stable_create-lookup}
use hwdb_opendpi.Payload.{cp_complete}
use hwdb_opendpi.Crecord.{CRecord, st_idle, st_query_sent, ticks_between_pings}
use hwdb_opendpi.Ctable.{
  Table, ctable_init, ctable_insert, ctable_lookup, store, keep, retry, timed, ctable_new_subport,
  find as find_record,
}
use hwdb_opendpi.Ctable.Invariant.{IsTable, ctable_init-IsTable, ctable_insert-IsTable}
use hwdb_opendpi.Ctable.Lookup.{same_key, ctable_lookup-ctable_insert, ctable_lookup-store}
use hwdb_opendpi.Ctable.Backoff.{verdicts, quiet, schedule, span, verdicts-schedule}
use hwdb_opendpi.Ctable.Pings.{ping_schedule, minutes, verdicts-ping_schedule}
use hwdb_opendpi.Ctable.Subport.{subport_echo}

-- A machine whose byte order is the network's.
instance abbrev pub big_endian : ByteOrder
big_endian = record {
  htonl = λ x. x % 2 ^ 32;
  ntohl = λ x. x % 2 ^ 32;
  htons = λ x. x % 2 ^ 16;
  ntohs = λ x. x % 2 ^ 16;
  ntohl-htonl = wrap32;
  htonl-ntohl = wrap32;
  ntohs-htons = wrap16;
  htons-ntohs = wrap16;
  ntohl-lt = below32;
}
  where
    wrap32 : (x : ℕ) → x % 2 ^ 32 % 2 ^ 32 ≡ x % 2 ^ 32
    wrap32 x = omega arith

    below32 : (x : ℕ) → x % 2 ^ 32 < 2 ^ 32
    below32 x = omega arith

    wrap16 : (x : ℕ) → x % 2 ^ 16 % 2 ^ 16 ≡ x % 2 ^ 16
    wrap16 x = omega arith

-- 10.0.0.x, port 987
abbrev pub host : ℕ → List ℕ
host x = 0 ∷ 2 ∷ 3 ∷ 219 ∷ 10 ∷ 0 ∷ 0 ∷ x ∷ replicate 8 0

abbrev pub client : RpcEndpoint
client = record { addr = host 1; subport = 65537 }

-- The same subport at another address.
abbrev pub stranger : RpcEndpoint
stranger = record { addr = host 2; subport = 65537 }

-- "HWDB"
abbrev pub hwdb : Name
hwdb = 72 ∷ 87 ∷ 68 ∷ 66 ∷ []

abbrev pub resting : CRecord
resting = record {
  self = 1;
  seqno = 1;
  state = st_idle;
  ep = client;
  svc = some hwdb;
  pl = none;
  resp = none;
  size = 0;
  nattempts = 0;
  ticks = 0;
  ticks_left = 0;
  pings_til_purge = 3;
  ticks_til_ping = ticks_between_pings;
  last_frag = 0;
}

abbrev pub one_client : Table
one_client = ctable_insert resting ctable_init

pub one_client-IsTable : IsTable 2 one_client
one_client-IsTable =
    ctable_insert-IsTable 1 resting ctable_init (ctable_init-IsTable 1) (omega arith) refl

pub one_client_lookup : ctable_lookup one_client client ≡ some resting
unfolding ctable_lookup ctable_insert ctable_init endpoint_hash endpoint_equal memeq find_record
one_client_lookup = refl

endpoint_equal_example :
    (endpoint_equal client stranger ≡ true) ↔ (client.subport ≡ stranger.subport)
endpoint_equal_example = endpoint_equal-subport client stranger refl

abbrev item : ℕ → Item ℕ ℕ
item k = record { addr = k; payload = k; size = k }

abbrev no_list : ListHead
no_list = record { head = 0; tail = 0; count = 0 }

abbrev no_heap : Heap ℕ ℕ
no_heap p = none

no_list-Represents : Represents no_list no_heap []
no_list-Represents = record { head = refl; tail = refl; count = refl; cells = tt }

abbrev one_item : Leaves (tsl_append 8 no_list no_heap (item 5)) true ((8, item 5) ∷ [])
one_item =
    tsl_append-Leaves 8 no_list no_heap (item 5) [] (omega arith) refl (omega arith)
      no_list-Represents

abbrev one_cell : List (ℕ × Item ℕ ℕ)
one_cell = (8, item 5) ∷ []

tsl_append_example : Leaves (tsl_append 8 no_list no_heap (item 5)) true ((8, item 5) ∷ [])
tsl_append_example =
    tsl_append-Leaves 8 no_list no_heap (item 5) [] (omega arith) refl (omega arith)
      no_list-Represents

tsl_remove_example :
    ((one_cell ≡ []) × (tsl_remove one_item.0 one_item.1 ≡ blocked))
    ⊎ ((p : ℕ) × (x : Item ℕ ℕ) × (rest : List (ℕ × Item ℕ ℕ)) × (one_cell ≡ (p, x) ∷ rest)
        × Leaves (tsl_remove one_item.0 one_item.1) x rest)
tsl_remove_example = tsl_remove-Leaves one_item.0 one_item.1 ((8, item 5) ∷ []) one_item.3

pub hash-hwdb : hash hwdb ≡ some 4
unfolding hash hash_loop
hash-hwdb = refl

no_services : stable_lookup {Q = ℕ} stable_init hwdb ≡ some none
unfolding stable_lookup stable_init hash hash_loop find
no_services = refl

abbrev hwdb_record : SRecord ℕ
hwdb_record = record { s_name = hwdb; s_queue = 0 }

stable_create_example :
    (st' : Stable ℕ) × (stable_create stable_init hwdb true (some 0) ≡ some (st', some hwdb_record))
    × (length st' ≡ stable_size)
    × (stable_lookup st' hwdb ≡ some (some hwdb_record))
    × (host 1 ≢ hwdb → stable_lookup st' (host 1) ≡ stable_lookup {Q = ℕ} stable_init (host 1))
unfolding stable_init
stable_create_example =
    stable_create-lookup stable_init hwdb 4 hash-hwdb 0 (host 1) refl no_services

abbrev one_service : Stable ℕ
one_service = replicate 4 [] ++ (hwdb_record ∷ []) ∷ replicate 8 []

one_service_lookup : stable_lookup one_service hwdb ≡ some (some hwdb_record)
unfolding stable_lookup hash hash_loop find str_eq
one_service_lookup = refl

insert_example :
    ctable_lookup (ctable_insert resting ctable_init) stranger
    ≡ (if same_key stranger client then some resting else ctable_lookup ctable_init stranger)
unfolding ctable_init
insert_example = ctable_lookup-ctable_insert resting ctable_init stranger refl refl

abbrev waiting : CRecord
waiting = record resting { state = st_query_sent }

store_example :
    ctable_lookup (store waiting one_client) stranger
    ≡ (if same_key stranger client then some waiting else ctable_lookup one_client stranger)
store_example =
    ctable_lookup-store 2 one_client one_client-IsTable client refl resting one_client_lookup
      waiting stranger refl refl refl

abbrev sending : CRecord
sending = record waiting { nattempts = 2; ticks = 3; ticks_left = 3 }

schedule_example : verdicts (span 2 3) sending ≡ schedule 2 3
schedule_example =
    verdicts-schedule 1 3 sending refl (omega arith) refl refl refl (omega arith) (omega arith)
      (omega arith)

schedule_run : schedule 2 3 ≡ keep ∷ keep ∷ retry ∷ keep ∷ keep ∷ keep ∷ keep ∷ keep ∷ timed ∷ []
unfolding schedule quiet
schedule_run = refl

ping_schedule_example : verdicts (minutes 3) resting ≡ ping_schedule 3
ping_schedule_example = verdicts-ping_schedule 2 resting refl (omega arith) refl refl (omega arith)

subport_example :
    ((endpoint_complete
        (host 1)
        (big_endian.ntohl (cp_complete (ctable_new_subport 0 40000).1 1 1 1 1).subport)).subport
      ≡ (ctable_new_subport 0 40000).1)
    ↔ (40000 % 2 ^ 16 < 2 ^ 15)
subport_example = subport_echo 0 40000 1 1 1 1 (host 1)
