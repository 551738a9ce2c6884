-- ===== src/Tests/Once.antt =====
-- A server's run at concrete inputs.
use hwdb_opendpi.Srpc.Serving.Safety.{IsServer, begins, serves, server_safe}
use hwdb_opendpi.Prelude.{
  ◌≡◌, ◌≢◌, refl, some, none, [], ◌∷◌, ◌++◌, arith, replicate, get_or, get_or-replicate,
}
use hwdb_opendpi.Endpoint.{endpoint_complete, endpoint_hash, endpoint_equal, memeq}
use hwdb_opendpi.Payload.{
  Packet, control, cmd_qack, cmd_connect, cmd_query, cmd_cack, cp_size, cp_complete,
}
use hwdb_opendpi.Crecord.{
  CRecord, st_fack_sent, st_qack_sent, crecord_set_state, crecord_set_payload,
}
use hwdb_opendpi.Stable.{Stable, hash, hash_loop, stable_lookup, str_eq, find as find_service}
use hwdb_opendpi.Ctable.{ctable_lookup, ctable_init, ctable_insert, find, store, assign}
use hwdb_opendpi.Ctable.Holds.{Holds, Holds-ctable_insert}
use hwdb_opendpi.Srpc.{Srpc, Message, Queue, ok, fault, copied, enqueue, push_to, update}
use hwdb_opendpi.Srpc.Reader.{
  Datagram, buf_size, arrival, reader, dispatch, on_query, accept_query, reply,
}
use hwdb_opendpi.Srpc.Serving.{Guard, Serving}
use hwdb_opendpi.Srpc.Serving.Once.{start, take_request, served_once}
use hwdb_opendpi.Srpc.Serving.Opening.{Opened, connect_serves}
use hwdb_opendpi.Srpc.Reader.Safe.{IsHonest}
use hwdb_opendpi.Srpc.Reader.Effects.{IsServing, IsSound, sound_in}
use hwdb_opendpi.Srpc.Runs.{here, next, ticks}
use hwdb_opendpi.Srpc.Runs.Blocks.{Reach-IsSound}
use hwdb_opendpi.Srpc.Timer.{timer}
use hwdb_opendpi.Srpc.Timer.Ticks.{after_tick, timer-after_tick}
use hwdb_opendpi.Tests.Tables.{
  hash-hwdb, one_client_lookup, big_endian, host, client, hwdb, resting,
}
use hwdb_opendpi.Tests.Server.{server, server-IsSrpc, services, query, request}

abbrev acknowledgement : Packet
acknowledgement = control (cp_complete 65537 cmd_qack 2 1 1)

abbrev answered : CRecord
answered = record resting {
  seqno = 2;
  state = st_qack_sent;
  pl = some acknowledgement;
  size = 12;
  nattempts = 7;
  ticks = 2;
  ticks_left = 2;
}

abbrev ack : Message
ack = record { to = client; packet = some acknowledgement; size = 12 }

abbrev busy : Stable Queue
busy = replicate 4 [] ++ (record { s_name = hwdb; s_queue = request ∷ [] } ∷ []) ∷ replicate 8 []

-- The server behind the query, and when its service has taken the request.
abbrev with_queues : Stable Queue → Srpc
with_queues st = record server { ctable = ctable_insert answered ctable_init; stable = st }

first : reader 0 (some query) server ≡ ok (with_queues busy) (ack ∷ [])
unfolding reader dispatch on_query accept_query reply ctable_lookup find store assign copied enqueue
    update endpoint_complete endpoint_hash cp_complete hash hash_loop crecord_set_state
    crecord_set_payload endpoint_equal ctable_insert ctable_init push_to memeq str_eq
first = refl

again : reader 0 (some query) (with_queues services) ≡ ok (with_queues services) (ack ∷ [])
unfolding reader dispatch on_query accept_query reply ctable_lookup find store assign copied enqueue
    update endpoint_complete endpoint_hash cp_complete hash hash_loop crecord_set_state
    crecord_set_payload endpoint_equal ctable_insert ctable_init memeq
again = refl

differ : busy ≢ services
differ e = cc

server-Serving : Serving client 1 0 server
unfolding ctable_init
server-Serving = record {
  valid = server-IsSrpc;
  only =
      Holds-ctable_insert (Guard client 1 0) ctable_init refl (λ i. rw (get_or-replicate 31 i) tt)
        resting
        (λ k. (
          refl,
          record { not_sent = omega arith; not_awaiting = omega arith; small = omega arith },
          omega arith,
        ));
}

served_once_example : (with_queues services).stable ≡ services
unfolding endpoint_complete endpoint_hash
served_once_example =
    served_once client 1 0 query server (with_queues busy) (ack ∷ []) server-Serving refl refl first
      differ (with_queues services) (take_request start services refl refl) 0 query
      (with_queues services) (ack ∷ []) refl refl (omega arith) again

-- A CONNECT from a second client.
abbrev connect : Datagram
connect = record {
  sender = host 2;
  n = 17;
  payload = record {
    hdr = record { subport = 65538; seqno = 7; command = cmd_connect; fnum = 1; nfrags = 1 };
    dhdr = record { tlen = 18519; flen = 17474 };
    bytes = 0 ∷ [];
    size = buf_size;
  };
  sname = hwdb;
}

newcomer : ctable_lookup server.ctable (arrival connect).ep ≡ none
unfolding endpoint_complete ctable_lookup find ctable_insert ctable_init endpoint_hash
    endpoint_equal memeq
newcomer = refl

offered_hwdb : stable_lookup services hwdb ≡ some (some (record { s_name = hwdb; s_queue = [] }))
unfolding stable_lookup hash hash_loop find_service str_eq
offered_hwdb = refl

connect_serves_example :
    (s' : Srpc) × (reader 0 (some connect) server
      ≡ ok s' (
          record {
            to = record { addr = host 2; subport = 65538 };
            packet = some (control (cp_complete 65538 cmd_cack 7 1 1));
            size = cp_size;
          }
          ∷ []))
    × Serving (record { addr = host 2; subport = 65538 }) 2 0 s'
    × Opened connect (record { s_name = hwdb; s_queue = [] }) server s'
unfolding endpoint_complete
connect_serves_example =
    connect_serves 0 connect server (record { s_name = hwdb; s_queue = [] }) server-IsSrpc refl
      (omega arith) refl offered_hwdb newcomer

server-Sound : Holds IsSound server.ctable
unfolding ctable_init
server-Sound =
    Holds-ctable_insert IsSound ctable_init refl (λ i. rw (get_or-replicate 31 i) tt) resting
      (sound_in _ _ (omega arith))

-- The timer ticks, and the query arrives.
Reach-IsSound_example : Holds IsSound (timer server).0.ctable
Reach-IsSound_example =
    Reach-IsSound server (timer server).0 server-IsSrpc server-Sound (next here (ticks refl))

query-IsHonest : IsHonest query server
unfolding endpoint_complete
query-IsHonest = record {
  fits = omega arith;
  named = λ e. absurd (other e);
  starts = λ e. omega arith;
  continues = λ c p kind found state held. absurd (idle c found state);
  filled = λ kind. omega arith;
}
  where
    other : cmd_query ≢ cmd_connect
    other = omega arith

    known : (c : CRecord) → ctable_lookup server.ctable client ≡ some c → resting ≡ c
    known c found = cc one_client_lookup

    idle : (c : CRecord) → ctable_lookup server.ctable client ≡ some c → c.state ≢ st_fack_sent
    idle c found = rw⁻¹ (known c found) (omega arith)

server-IsServer : IsServer server
unfolding ctable_init
server-IsServer = record {
  valid = server-IsSrpc;
  sound = server-Sound;
  serving =
      Holds-ctable_insert IsServing ctable_init refl (λ i. rw (get_or-replicate 31 i) tt) resting
        (hwdb, 4, refl, hash-hwdb);
}

-- The services have looked at their queues before.
server_safe_example : reader 0 (some query) server ≢ fault
server_safe_example =
    server_safe server server server-IsServer (serves begins services refl refl) 0 query
      query-IsHonest

timer-after_tick_example :
    get_or (timer server).0.ctable 21 [] ≡ after_tick (get_or server.ctable 21 [])
timer-after_tick_example = timer-after_tick server 21 server-IsSrpc
