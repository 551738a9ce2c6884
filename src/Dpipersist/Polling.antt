-- ===== src/Dpipersist/Polling.antt =====
-- dpipersist.c: the loop of `main` that asks the database for new flows each TIME_DELTA seconds.
-- A negative time is refused by nanosleep, which returns at once.
pub mod Schedule
pub mod Asking
use hwdb_opendpi.Prelude.{
  ℕ, ◌+◌, ◌-◌, ◌*◌, Bool, true, false, Option, some, none, List, [], ◌∷◌, ◌++◌, ltb, ◌==◌,
  if◌then◌else◌, Outcome, done, fault, ◌>>=◌,
}
use hwdb_opendpi.Dpipersist.{Answer, Shared}
use hwdb_opendpi.Dpipersist.Results.{Conversions, Rtab, processresults}

abbrev pub time_delta : ℕ
time_delta = 5

-- The two forms of the text `query`.
pub data Query : Type 0 where
  since : ℕ → Query
  range : ℕ → Query

-- `struct timeval`
pub record TimeVal : Type 0 where
  pub tv_sec : ℕ
  pub tv_usec : ℕ

-- `time_delay`; `negative` is a `tv_sec` below 0.
pub data Delay : Type 0 where
  negative : Delay
  waits : ℕ → ℕ → Delay

-- `a - b` for `tv_sec`
abbrev pub delay_of : ℕ → ℕ → ℕ → Delay
delay_of a b nsec = if ltb a b then negative else waits (a - b) nsec

-- The delay until the second `expected`.
unfoldable pub time_delay : ℕ → TimeVal → Delay
time_delay expected current =
    if current.tv_usec == 0
    then delay_of expected current.tv_sec 0
    else delay_of expected (current.tv_sec + 1) (1000 * (1000000 - current.tv_usec))

-- SOCK_RECV_BUF_LEN, the size of `resp` and the most that rpc_call may give.
abbrev pub resp_size : ℕ
resp_size = 65535

-- What rpc_call gives: the length of the answer, and what rtab_unpack and rtab_status make of it.
pub record Reply : Type 0 where
  pub len : ℕ
  pub unpacked : Option Rtab
  pub status : Bool

-- What comes from outside in one round: the time, and the answer, `none` when rpc_call fails.
pub record Round : Type 0 where
  pub current : TimeVal
  pub answer : Option Reply

-- The variables of the loop. `asked` lists the delays and the queries, in order.
pub record Polling : Type 0 where
  pub expected : ℕ
  pub last : ℕ
  pub room : ℕ
  pub shared : Shared
  pub asked : List (Delay × Query)

abbrev pub query_of : ℕ → Query
query_of last = if last == 0 then range time_delta else since last

-- One round, and whether the loop goes on to the test of `must_exit`. The write of `resp[len]` is
-- past the end of `resp` if the answer fills it.
unfoldable pub poll : Answer → Conversions → Round → Polling → Outcome (Bool × Polling)
poll db c r p =
    let expected = p.expected + time_delta in
    let p1 : Polling = record p {
      expected = expected;
      asked = p.asked ++ ((time_delay expected r.current, query_of p.last) ∷ []);
    } in
    elim r.answer [
      | none ↦ done (false, p1)
      | some a ↦
          if ltb a.len resp_size
          then (processresults db c a.unpacked a.status p.room p.shared >>= λ q. done (
            true,
            record p1 { last = (if q.0 == 0 then p.last else q.0); room = q.1; shared = q.2 },
          ))
          else fault
    ]

-- The loop, over what the rounds get.
unfoldable pub poll_loop : Answer → Conversions → List Round → Polling → Outcome Polling
poll_loop db c [] p = done p
poll_loop db c (r ∷ rs) p =
    if p.shared.must_exit
    then done p
    else (poll db c r p >>= λ q. elim q.0 [ true ↦ poll_loop db c rs q.1 | false ↦ done q.1 ])
