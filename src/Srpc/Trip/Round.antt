-- ===== src/Srpc/Trip/Round.antt =====
-- srpc.c: the whole of a remote call, in one piece each way, at both ends.
use hwdb_opendpi.Prelude.{
  ℕ, ◌+◌, ◌<◌, ◌≤◌, ◌≡◌, refl, ◌∙◌, inr, some, List, [], ◌∷◌, arith, length, length-append,
}
use hwdb_opendpi.Endpoint.{ByteOrder, SockAddr, RpcEndpoint, sockaddr_size}
use hwdb_opendpi.Payload.{dat, DataPayload, cp_complete, cp_size, cmd_query, cmd_qack, cmd_response}
use hwdb_opendpi.Stable.{Name, Stable}
use hwdb_opendpi.Crecord.{
  CRecord, crecord_set_state, crecord_set_payload, st_idle, st_awaiting_response,
}
use hwdb_opendpi.Ctable.{ctable_lookup, store}
use hwdb_opendpi.Ctable.Lookup.{ctable_lookup-Found}
use hwdb_opendpi.Srpc.{Srpc, Message, Queue, ok, data_offset, enqueue}
use hwdb_opendpi.Srpc.Reader.{Datagram, arrival, reader}
use hwdb_opendpi.Srpc.Reader.Keeps.{IsSrpc}
use hwdb_opendpi.Srpc.Reader.Queries.{lookup_stored, kept}
use hwdb_opendpi.Srpc.Call.{
  Call, waits, returns, answer_wait, seqno_limit, rpc_call, rpc_call_resume, rpc_response,
}
use hwdb_opendpi.Srpc.Call.Late.{reader-qack}
use hwdb_opendpi.Srpc.Call.Resumes.{response_returns}
use hwdb_opendpi.Srpc.Interface.{rpc_query}
use hwdb_opendpi.Srpc.Trip.Server.{
  IsServer, d1, qack, qack_message, number1, server_queues, server_answers,
}
use hwdb_opendpi.Srpc.Trip.{
  Stale, wire, IsShort, key_of, in_one, asking, rpc_call-asks, rpc_query-gives, take-append,
}

-- The client's end of a connection: its caller and the datagrams of the server find the record `c`,
-- which is idle.
pub record IsCaller ⦃net : ByteOrder⦄ (a : Call) (back : RpcEndpoint) (c : CRecord) (s : Srpc)
    : Type 0 where
  pub valid : IsSrpc s
  pub whole : length a.ep.addr ≡ sockaddr_size
  pub mine : ctable_lookup s.ctable a.ep ≡ some c
  pub back_whole : length back.addr ≡ sockaddr_size
  pub heard : ctable_lookup s.ctable back ≡ some c
  pub idle : c.state ≡ st_idle
  pub early : c.seqno < seqno_limit

module _ ⦃net : ByteOrder⦄ (fill : ℕ) (a : Call) (client server : SockAddr) (old1 old2 old3 : Stale)
    (c : CRecord) (s : Srpc) (short : IsShort a.query) (message : List ℕ) (small : IsShort message)
    (room : length message ≤ a.rsize)
    (w : IsCaller a (key_of server (key_of client a.ep.subport).subport) c s) where
  abbrev sent_query : Datagram
  sent_query = d1 client old1 a.ep.subport c.seqno a.query

  abbrev answer : DataPayload
  answer =
      in_one (key_of client a.ep.subport).subport cmd_response (arrival sent_query).seqno message

  abbrev back : RpcEndpoint
  back = key_of server (key_of client a.ep.subport).subport

  abbrev asked : CRecord
  asked = asking a c s w.mine w.idle w.early short

  abbrev s1 : Srpc
  s1 = record s { ctable = store asked s.ctable }

  own : length c.ep.addr ≡ sockaddr_size
  own = (ctable_lookup-Found s.brk s.ctable w.valid.table a.ep w.whole c w.mine).0.whole

  abbrev d2 : Datagram
  d2 = wire server old2 (qack client old1 a.ep.subport c.seqno a.query) cp_size

  abbrev acknowledged : CRecord
  acknowledged = crecord_set_state asked st_awaiting_response

  abbrev s2 : Srpc
  s2 = record s1 { ctable = store acknowledged s1.ctable }

  valid1 : IsSrpc s1
  unfolding crecord_set_state crecord_set_payload
  valid1 = kept s asked own w.valid

  found1 :
      (ep : RpcEndpoint)
      → length ep.addr ≡ sockaddr_size
      → ctable_lookup s.ctable ep ≡ some c
      → ctable_lookup s1.ctable ep ≡ some asked
  unfolding crecord_set_state crecord_set_payload
  found1 ep whole e = lookup_stored s ep c asked w.valid whole e refl refl

  valid2 : IsSrpc s2
  unfolding crecord_set_state crecord_set_payload
  valid2 = kept s1 acknowledged own valid1

  found2 :
      (ep : RpcEndpoint)
      → length ep.addr ≡ sockaddr_size
      → ctable_lookup s.ctable ep ≡ some c
      → ctable_lookup s2.ctable ep ≡ some acknowledged
  unfolding crecord_set_state crecord_set_payload
  found2 ep whole e =
      lookup_stored s1 ep asked acknowledged valid1 whole (found1 ep whole e) refl refl

  -- The client takes the acknowledgement.
  client_waits : reader fill (some d2) s1 ≡ ok s2 []
  unfolding cp_complete crecord_set_state crecord_set_payload
  client_waits =
      reader-qack fill d2 asked s1 (found1 back w.back_whole w.heard) (omega arith)
        (net.ntohs-htons cmd_qack)
        (net.ntohl-htonl (arrival sent_query).seqno
          ∙ omega (arith, number1 client old1 a.ep.subport c.seqno a.query w.early, w.early))

  abbrev d3 : Datagram
  d3 = wire server old3 (dat answer) (data_offset + length message)

  -- The client returns the answer.
  client_returns :
      (s3 : Srpc) × (out : List Message) × (reader fill (some d3) s2 ≡ ok s3 out)
      × (s4 : Srpc) × (rpc_call_resume a answer_wait c.self s3
          ≡ some (returns (some message) s4 []))
  unfolding cp_complete crecord_set_state crecord_set_payload
  client_returns =
      let tlen : net.ntohs (net.htons (length message)) ≡ length message =
        net.ntohs-htons (length message) ∙ omega (arith, small.1) in
      let same : (arrival d3).seqno ≡ acknowledged.seqno =
        net.ntohl-htonl (arrival sent_query).seqno
        ∙ omega (arith, number1 client old1 a.ep.subport c.seqno a.query w.early, w.early) in
      let (s3, run, s4, result) =
        response_returns fill d3 a acknowledged s2 valid2 w.whole (found2 a.ep w.whole w.mine)
          (found2 back w.back_whole w.heard) (omega (arith, small.1)) same (length message)
          (net.ntohs-htons cmd_response) (inr refl) tlen refl
          (omega (arith, length-append message old3.bytes)) room in
      (s3, _, run, s4, result ∙ rw (take-append message old3.bytes) refl)

  -- A call of rpc_call on an idle connection, with 1 to 1024 bytes, to a service that answers with
  -- 1 to 1024 bytes that the caller's block can take, when no datagram is lost or out of order,
  -- both ends know the connection under the same number, and the query can be queued: the call
  -- sends one QUERY; the server's reader leaves the queues with that request behind and
  -- acknowledges it; rpc_query, on that request, gives the service the client's endpoint and the
  -- bytes of the query; rpc_response succeeds and sends one RESPONSE; the client's reader takes
  -- both messages; and the call then returns the bytes of the response.
  pub remote_call :
      (cs : CRecord) (t : Srpc) (svc : Name) (st : Stable Queue) (len : ℕ)
      → IsServer (key_of client a.ep.subport) c.seqno svc cs t
      → enqueue svc
          (record {
            sender = key_of client a.ep.subport;
            packet = in_one a.ep.subport cmd_query (c.seqno + 1) a.query;
            size = data_offset + length a.query;
          })
          t.stable
        ≡ some st
      → length a.query ≤ len
      → (rpc_call a s
          ≡ waits answer_wait c.self s1 (
              record {
                to = a.ep;
                packet = some (dat (in_one a.ep.subport cmd_query (c.seqno + 1) a.query));
                size = data_offset + length a.query;
              }
              ∷ []))
        × (rpc_query
              (record {
                sender = key_of client a.ep.subport;
                packet = in_one a.ep.subport cmd_query (c.seqno + 1) a.query;
                size = data_offset + length a.query;
              })
              len
            ≡ some (key_of client a.ep.subport, a.query))
        × (t1 : Srpc) × (reader fill (some sent_query) t
            ≡ ok t1 (qack_message client old1 a.ep.subport c.seqno a.query ∷ []))
        × (t1.stable ≡ st)
        × (t2 : Srpc) × (rpc_response (key_of client a.ep.subport) message t1
            ≡ returns (some []) t2 (
                record {
                  to = key_of client a.ep.subport;
                  packet = some (dat answer);
                  size = data_offset + length message;
                }
                ∷ []))
        × (reader fill (some d2) s1 ≡ ok s2 [])
        × (s3 : Srpc) × (out : List Message) × (reader fill (some d3) s2 ≡ ok s3 out)
        × (s4 : Srpc) × (rpc_call_resume a answer_wait c.self s3
            ≡ some (returns (some message) s4 []))
  remote_call cs t svc st len v queued fits =
      let (t1, run1, h) =
        server_queues client old1 a.ep.subport c.seqno a.query fill cs t svc st short w.early v
          queued in
      let (t2, run2) =
        server_answers client old1 a.ep.subport c.seqno a.query fill cs t svc st short w.early v
          queued message small t1 h in
      let (s3, out, run3, s4, result) = client_returns in
      (
        rpc_call-asks a c s w.mine w.idle w.early short,
        rpc_query-gives _ len a.ep.subport (c.seqno + 1) a.query refl fits (omega (arith, short.1)),
        t1,
        run1,
        h.queues,
        t2,
        run2,
        client_waits,
        s3,
        out,
        run3,
        s4,
        result,
      )
