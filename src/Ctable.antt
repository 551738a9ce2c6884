-- ===== src/Ctable.antt =====
-- ctable.c and ctable.h: the hash table of connection records, and the scan that the timer makes.
-- The list of a bucket stands for its chain of `next` pointers. The lists that `ctable_scan`
-- threads through `link` are lists of records. The table's mutex is held by every caller.
pub mod Holds
pub mod Invariant
pub mod Lookup
pub mod Scanning
pub mod Backoff
pub mod Pings
pub mod Subport
use hwdb_opendpi.Prelude.{
  ℕ, zero, suc, ◌+◌, ◌-◌, ◌*◌, ◌%◌, ◌^◌, Bool, true, false, ◌||◌, Option, none, some, List, [], ◌∷◌,
  ◌==◌, ltb, if◌then◌else◌, set, get_or, replicate,
}
use hwdb_opendpi.Endpoint.{RpcEndpoint, endpoint_equal, endpoint_hash}
use hwdb_opendpi.Crecord.{
  CRecord, st_connect_sent, st_query_sent, st_response_sent, st_disconnect_sent, st_fragment_sent,
  st_seqno_sent, st_timedout, ticks_between_pings,
}

abbrev pub ctable_size : ℕ
ctable_size = 31

abbrev pub Table : Type 0
Table = List (List CRecord)

unfoldable pub ctable_init : Table
ctable_init = replicate ctable_size []

-- The new counter and the subport. `(pid & 0xffff) << 16 | ctr` is an `int`: its sign is extended
-- to the 64 bits of an `unsigned long`.
unfoldable pub ctable_new_subport : ℕ → ℕ → ℕ × ℕ
ctable_new_subport ctr pid =
    let ctr' = if ltb 0x7fff ((ctr + 1) % 2 ^ 16) then 1 else (ctr + 1) % 2 ^ 16 in
    let word = pid % 2 ^ 16 * 2 ^ 16 + ctr' in
    (ctr', if ltb word (2 ^ 31) then word else 2 ^ 64 - 2 ^ 32 + word)

abbrev pub bucket : Table → RpcEndpoint → List CRecord
bucket t ep = get_or t (endpoint_hash ep ctable_size) []

unfoldable pub ctable_insert : CRecord → Table → Table
ctable_insert cr t = set t (endpoint_hash cr.ep ctable_size) (cr ∷ bucket t cr.ep)

unfoldable pub find : RpcEndpoint → List CRecord → Option CRecord
find ep [] = none
find ep (r ∷ rs) = if endpoint_equal ep r.ep then some r else find ep rs

unfoldable pub ctable_lookup : Table → RpcEndpoint → Option CRecord
ctable_lookup t ep = find ep (bucket t ep)

-- The loop with `pr` and `cu`: the record at that address leaves the chain.
unfoldable pub unlink : ℕ → List CRecord → List CRecord
unlink p [] = []
unlink p (r ∷ rs) = if p == r.self then rs else r ∷ unlink p rs

unfoldable pub ctable_remove : CRecord → Table → Table
ctable_remove cr t = set t (endpoint_hash cr.ep ctable_size) (unlink cr.self (bucket t cr.ep))

-- A change that the code makes through a pointer to a record of the table: the record at its
-- address becomes `cr`.
unfoldable pub assign : CRecord → List CRecord → List CRecord
assign cr [] = []
assign cr (r ∷ rs) = if cr.self == r.self then cr ∷ rs else r ∷ assign cr rs

unfoldable pub store : CRecord → Table → Table
store cr t = set t (endpoint_hash cr.ep ctable_size) (assign cr (bucket t cr.ep))

-- The list that `ctable_scan` puts a record on, if any.
pub data Verdict : Type 0 where
  keep retry timed ping purge : Verdict

-- `--x` of an `unsigned short`
abbrev pub dec16 : ℕ → ℕ
dec16 x = (x + (2 ^ 16 - 1)) % 2 ^ 16

-- The states in which the last message is sent again.
abbrev pub is_sending : ℕ → Bool
is_sending st =
    st == st_connect_sent
    || (st == st_query_sent
        || (st == st_response_sent
            || (st == st_disconnect_sent || (st == st_fragment_sent || st == st_seqno_sent))))

-- The body of the inner loop. `<= 0` is asked of an unsigned number.
unfoldable pub scan_record : CRecord → CRecord × Verdict
scan_record p =
    if p.state == st_timedout
    then (p, purge)
    else if is_sending p.state
    then (if dec16 p.ticks_left == 0
        then (if dec16 p.nattempts == 0
            then (
              record p { ticks_left = dec16 p.ticks_left; nattempts = dec16 p.nattempts },
              timed,
            )
            else (
              record p {
                nattempts = dec16 p.nattempts;
                ticks = p.ticks * 2 % 2 ^ 16;
                ticks_left = p.ticks * 2 % 2 ^ 16;
              },
              retry,
            ))
        else (record p { ticks_left = dec16 p.ticks_left }, keep))
    else if dec16 p.ticks_til_ping == 0
    then (if dec16 p.pings_til_purge == 0
        then (
          record p {
            ticks_til_ping = dec16 p.ticks_til_ping;
            pings_til_purge = dec16 p.pings_til_purge;
          },
          timed,
        )
        else (
          record p {
            ticks_til_ping = ticks_between_pings;
            pings_til_purge = dec16 p.pings_til_purge;
          },
          ping,
        ))
    else (record p { ticks_til_ping = dec16 p.ticks_til_ping }, keep)

-- The four lists that the scan returns, the record that was met last at the head.
pub record Scan : Type 0 where
  pub retries : List CRecord
  pub timeds : List CRecord
  pub pings : List CRecord
  pub purges : List CRecord

abbrev pub thread : CRecord × Verdict → Scan → Scan
thread (p, keep) s = s
thread (p, retry) s = record s { retries = p ∷ s.retries }
thread (p, timed) s = record s { timeds = p ∷ s.timeds }
thread (p, ping) s = record s { pings = p ∷ s.pings }
thread (p, purge) s = record s { purges = p ∷ s.purges }

unfoldable pub scan_bucket : List CRecord → Scan → List CRecord × Scan
unfolding scan_record
scan_bucket [] s = ([], s)
scan_bucket (p ∷ ps) s =
    let v = scan_record p in let rest = scan_bucket ps (thread v s) in (v.0 ∷ rest.0, rest.1)

unfoldable pub scan_buckets : Table → Scan → Table × Scan
unfolding scan_bucket
scan_buckets [] s = ([], s)
scan_buckets (b ∷ bs) s =
    let v = scan_bucket b s in let rest = scan_buckets bs v.1 in (v.0 ∷ rest.0, rest.1)

unfoldable pub ctable_scan : Table → Table × Scan
unfolding scan_buckets
ctable_scan t = scan_buckets t (record { retries = []; timeds = []; pings = []; purges = [] })

-- Every record is destroyed, and the table is initialised.
unfoldable pub ctable_purge : Table → Table
unfolding ctable_init
ctable_purge t = ctable_init
