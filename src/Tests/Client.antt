-- ===== src/Tests/Client.antt =====
-- The theorems about a call at concrete inputs.
use hwdb_opendpi.Prelude.{
  ℕ, ◌+◌, ◌/◌, ◌%◌, ◌≡◌, refl, List, inl, none, some, [], ◌∷◌, arith, replicate,
}
use hwdb_opendpi.Endpoint.{endpoint_complete}
use hwdb_opendpi.Payload.{
  fr_size, cp_size, cmd_fragment, cmd_cack, cmd_fack, cmd_rack, cmd_response, cmd_qack,
}
use hwdb_opendpi.Crecord.{
  CRecord, crecord_set_state, st_idle, st_fragment_sent, st_query_sent, st_fack_received,
}
use hwdb_opendpi.Ctable.{
  ctable_new_subport, Table, ctable_lookup, ctable_insert, ctable_init, store, find,
}
use hwdb_opendpi.Endpoint.{endpoint_hash, endpoint_equal, memeq}
use hwdb_opendpi.Ctable.Invariant.{ctable_init-IsTable, ctable_insert-IsTable}
use hwdb_opendpi.Srpc.{Srpc, ok}
use hwdb_opendpi.Srpc.Sending.{fragments_of}
use hwdb_opendpi.Srpc.Reader.{Datagram, buf_size, arrival, ctl, reader}
use hwdb_opendpi.Srpc.Reader.Keeps.{IsSrpc}
use hwdb_opendpi.Srpc.Call.{
  Call, call_next, waits, returns, fragment_wait, answer_wait, rpc_call, rpc_call_resume,
}
use hwdb_opendpi.Srpc.Call.Late.{qack_strands}
use hwdb_opendpi.Srpc.Call.Sends.{sent, carrying, call_next-fragment}
use hwdb_opendpi.Srpc.Call.Resumes.{fack_resumes, response_returns}
use hwdb_opendpi.Srpc.Interface.{Connecting, rpc_connect, rpc_connect_resume}
use hwdb_opendpi.Srpc.Interface.Connects.{endpoint, begun, greeting, connect_returns}
use hwdb_opendpi.Tests.Tables.{big_endian, host, client, hwdb, resting}

abbrev call : Call
call = record { ep = client; query = replicate 1500 7; rsize = 100 }

abbrev with_state : ℕ → CRecord
with_state st = record resting { state = st; seqno = 2; last_frag = 1 }

abbrev table_with : ℕ → Table
table_with st = ctable_insert (with_state st) ctable_init

abbrev caller : ℕ → Srpc
caller st = record { ctable = table_with st; stable = replicate 13 []; ctr = 0; brk = 2 }

caller-IsSrpc : (st : ℕ) → IsSrpc (caller st)
caller-IsSrpc st = record {
  table =
      ctable_insert-IsTable 1 (with_state st) ctable_init (ctable_init-IsTable 1) (omega arith)
        refl;
  alive = omega arith;
  services = refl;
}

caller_lookup : (st : ℕ) → ctable_lookup (table_with st) client ≡ some (with_state st)
unfolding ctable_lookup ctable_insert ctable_init endpoint_hash endpoint_equal memeq find
caller_lookup st = refl

-- A datagram of the call's number, with 4 bytes.
abbrev answer : ℕ → Datagram
answer command = record {
  sender = host 1;
  n = 20;
  payload = record {
    hdr = record { subport = 65537; seqno = 2; command = command; fnum = 1; nfrags = 2 };
    dhdr = record { tlen = 4; flen = 4 };
    bytes = 1 ∷ 2 ∷ 3 ∷ 4 ∷ [];
    size = buf_size;
  };
  sname = [];
}

answer_lookup :
    (st command : ℕ)
    → ctable_lookup (table_with st) (arrival (answer command)).ep ≡ some (with_state st)
unfolding endpoint_complete
answer_lookup st command = caller_lookup st

call_next-fragment_example :
    call_next call 2 1 (fragments_of 1500) (with_state 1) (caller 1)
    ≡ waits
        (fragment_wait 2 1 (fragments_of 1500))
        1
        (record (caller 1) {
          ctable =
              store
                (sent call 2 1
                  (record (with_state 1) { last_frag = 1 })
                  cmd_fragment
                  fr_size
                  st_fragment_sent)
                (table_with 1);
        })
        (carrying call 2 1 cmd_fragment fr_size ∷ [])
unfolding fragments_of
call_next-fragment_example =
    call_next-fragment call 2 1 (with_state 1) (caller 1) (omega arith, omega arith) (omega arith)
      (omega arith)

fack_resumes_example :
    (s' : Srpc) × (reader 0 (some (answer cmd_fack)) (caller st_fragment_sent) ≡ ok s' [])
    × (rpc_call_resume call (fragment_wait 2 1 2) 1 s'
        ≡ some (
            call_next call 2
              (1 + 1)
              2
              (crecord_set_state (with_state st_fragment_sent) st_fack_received)
              s'))
fack_resumes_example =
    fack_resumes 0 (answer cmd_fack) call (with_state st_fragment_sent) (caller st_fragment_sent)
      (caller-IsSrpc st_fragment_sent) refl (caller_lookup st_fragment_sent)
      (answer_lookup st_fragment_sent cmd_fack) (omega arith) refl 2 1 2 refl refl refl refl

response_returns_example :
    (s' : Srpc) × (reader 0 (some (answer cmd_response)) (caller st_query_sent)
      ≡ ok s' (
          record {
            to = client;
            packet =
                some
                  (ctl (arrival (answer cmd_response)).ep cmd_rack (arrival (answer cmd_response)));
            size = cp_size;
          }
          ∷ []))
    × (s'' : Srpc) × (rpc_call_resume call answer_wait 1 s'
        ≡ some (returns (some (1 ∷ 2 ∷ 3 ∷ 4 ∷ [])) s'' []))
response_returns_example =
    response_returns 0 (answer cmd_response) call (with_state st_query_sent) (caller st_query_sent)
      (caller-IsSrpc st_query_sent) refl (caller_lookup st_query_sent)
      (answer_lookup st_query_sent cmd_response) (omega arith) refl 4 refl (inl refl) refl refl
      (omega arith) (omega arith)

qack_strands_example :
    (s' : Srpc) × (reader 0 (some (answer cmd_qack)) (caller st_idle) ≡ ok s' [])
    × (rpc_call_resume call answer_wait 1 s' ≡ none)
    × ((a' : Call) → a'.ep ≡ client → rpc_call a' s' ≡ returns none s' [])
qack_strands_example =
    qack_strands 0 (answer cmd_qack) (with_state st_idle) (caller st_idle)
      (answer_lookup st_idle cmd_qack) (omega arith) refl refl call (caller-IsSrpc st_idle) refl
      (caller_lookup st_idle)

abbrev bytes_of : ℕ → List ℕ
bytes_of x = x / 256 ∷ x % 256 ∷ []

abbrev ip : List ℕ
ip = 10 ∷ 0 ∷ 0 ∷ 9 ∷ []

abbrev welcome : Datagram
welcome = record {
  sender = host 9;
  n = 12;
  payload = record {
    hdr = record { subport = 327681; seqno = 1; command = cmd_cack; fnum = 1; nfrags = 1 };
    dhdr = record { tlen = 0; flen = 0 };
    bytes = [];
    size = buf_size;
  };
  sname = [];
}

welcome_from : (arrival welcome).ep ≡ endpoint bytes_of 5 ip 987 hwdb 1 (caller 1)
unfolding endpoint_complete ctable_new_subport
welcome_from = refl

connect_returns_example :
    (rpc_connect bytes_of 5 (some ip) 987 hwdb 1 (caller 1)
      ≡ Connecting.waits
          (endpoint bytes_of 5 ip 987 hwdb 1 (caller 1))
          2
          (begun bytes_of 5 ip 987 hwdb 1 (caller 1))
          (greeting bytes_of 5 ip 987 hwdb 1 (caller 1) ∷ []))
    × (s' : Srpc) × (reader 0 (some welcome) (begun bytes_of 5 ip 987 hwdb 1 (caller 1)) ≡ ok s' [])
    × (rpc_connect_resume bytes_of (endpoint bytes_of 5 ip 987 hwdb 1 (caller 1)) 2 s'
        ≡ some (Connecting.returns (some (endpoint bytes_of 5 ip 987 hwdb 1 (caller 1))) s' []))
connect_returns_example =
    connect_returns bytes_of 5 ip 987 hwdb 1 (caller 1) (caller-IsSrpc 1) (λ x. refl) refl 0 welcome
      (omega arith) refl welcome_from refl
