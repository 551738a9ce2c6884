-- ===== src/Tests/Trip.antt =====
-- A remote call at concrete inputs.
use hwdb_opendpi.Prelude.{◌≡◌, refl, inl, some, none, [], ◌∷◌, arith, get_or, set}
use hwdb_opendpi.Endpoint.{RpcEndpoint, endpoint_complete, endpoint_hash, endpoint_equal, memeq}
use hwdb_opendpi.Payload.{dat, cmd_query, attempts, ticks}
use hwdb_opendpi.Crecord.{CRecord, st_query_sent, crecord_set_state, crecord_set_payload}
use hwdb_opendpi.Stable.{Stable}
use hwdb_opendpi.Ctable.{ctable_lookup, ctable_init, ctable_insert, find, store}
use hwdb_opendpi.Ctable.Invariant.{ctable_init-IsTable, ctable_insert-IsTable}
use hwdb_opendpi.Srpc.{Srpc, Queue, Request, enqueue, push_to}
use hwdb_opendpi.Srpc.Call.{Call, returns, answer_wait, rpc_call_resume}
use hwdb_opendpi.Srpc.Trip.{Stale, key_of, in_one}
use hwdb_opendpi.Srpc.Trip.Server.{IsServer}
use hwdb_opendpi.Srpc.Timer.Silence.{ticked}
use hwdb_opendpi.Srpc.Trip.Unanswered.{unanswered_call}
use hwdb_opendpi.Srpc.Trip.Round.{IsCaller, remote_call}
use hwdb_opendpi.Tests.Tables.{
  big_endian, host, client, hwdb, hash-hwdb, resting, one_client_lookup,
}
use hwdb_opendpi.Tests.Server.{server, server-IsSrpc, services}

-- The service at host 9, as the client knows it.
abbrev there : RpcEndpoint
there = record { addr = host 9; subport = 65537 }

abbrev opened : CRecord
opened = record resting { ep = there; svc = none }

abbrev caller : Srpc
caller = record { ctable = ctable_insert opened ctable_init; stable = services; ctr = 1; brk = 2 }

abbrev call : Call
call = record { ep = there; query = 1 ∷ 2 ∷ 3 ∷ 4 ∷ []; rsize = 64 }

opened_lookup : ctable_lookup caller.ctable there ≡ some opened
unfolding ctable_lookup ctable_insert ctable_init endpoint_hash endpoint_equal memeq find
opened_lookup = refl

caller-IsCaller : IsCaller call (key_of (host 9) (key_of (host 1) 65537).subport) opened caller
unfolding endpoint_complete
caller-IsCaller = record {
  valid = record {
    table = ctable_insert-IsTable 1 opened ctable_init (ctable_init-IsTable 1) (omega arith) refl;
    alive = omega arith;
    services = refl;
  };
  whole = refl;
  mine = opened_lookup;
  back_whole = refl;
  heard = opened_lookup;
  idle = refl;
  early = omega arith;
}

server-IsServer : IsServer (key_of (host 1) 65537) 1 hwdb resting server
unfolding endpoint_complete
server-IsServer = record {
  valid = server-IsSrpc;
  whole = refl;
  known = one_client_lookup;
  peer = refl;
  number = refl;
  ready = inl refl;
  offered = refl;
}

abbrev request : Request
request = record {
  sender = client;
  packet = in_one 65537 cmd_query 2 (1 ∷ 2 ∷ 3 ∷ 4 ∷ []);
  size = 20;
}

abbrev queued : Stable Queue
queued = set services 4 (push_to hwdb request (get_or services 4 []))

enqueue-request : enqueue hwdb request services ≡ some queued
unfolding enqueue
enqueue-request = rw (hash-hwdb, enqueue)

abbrev nothing : Stale
nothing = record { dhdr = record { tlen = 0; flen = 0 }; bytes = []; sname = [] }

abbrev waiting : CRecord
waiting =
    crecord_set_state
      (crecord_set_payload (record opened { seqno = 2 })
        (dat (in_one 65537 cmd_query 2 (1 ∷ 2 ∷ 3 ∷ 4 ∷ []))) 20 attempts ticks)
      st_query_sent

remote_call_example :
    (s3 : Srpc) × (s4 : Srpc) × (rpc_call_resume call answer_wait 1 s3
      ≡ some (returns (some (7 ∷ 8 ∷ [])) s4 []))
unfolding endpoint_complete
remote_call_example =
    let (asks, gives, t1, queues, same, t2, answers, acks, s3, out, takes, s4, result) =
      remote_call 0 call (host 1) (host 9) nothing nothing nothing opened caller
        (omega arith, omega arith) (7 ∷ 8 ∷ []) (omega arith, omega arith) (omega arith)
        caller-IsCaller resting server hwdb queued 100 server-IsServer enqueue-request
        (omega arith) in
    (s3, s4, result)

unanswered_call_example :
    (t : Srpc) × (rpc_call_resume call answer_wait 1
        (ticked 254 (record caller { ctable = store waiting caller.ctable }))
      ≡ some (returns none t []))
unfolding crecord_set_state crecord_set_payload
unanswered_call_example =
    let (asks, t, gives_up) =
      unanswered_call call opened caller caller-IsCaller.valid refl opened_lookup refl (omega arith)
        (omega arith, omega arith) in
    (t, gives_up)
