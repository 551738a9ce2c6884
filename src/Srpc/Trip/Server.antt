-- ===== src/Srpc/Trip/Server.antt =====
-- srpc.c: a query of one piece at the server: it is queued and acknowledged, and its answer is
-- sent.
use hwdb_opendpi.Prelude.{
  ℕ, ◌+◌, ◌-◌, ◌%◌, ◌^◌, ◌<◌, ◌≡◌, refl, ap, ◌∙◌, ◌⊎◌, true, some, List, [], ◌∷◌, arith, length,
}
use mathlib.Core.Path.{subst}
use hwdb_opendpi.Endpoint.{ByteOrder, SockAddr, RpcEndpoint, sockaddr_size}
use hwdb_opendpi.Payload.{
  Packet, dat, DataPayload, cp_complete, cp_size, cmd_query, cmd_qack, cmd_response,
}
use hwdb_opendpi.Stable.{Name, Stable}
use hwdb_opendpi.Crecord.{CRecord, st_idle, st_response_sent}
use hwdb_opendpi.Ctable.{ctable_lookup, store}
use hwdb_opendpi.Srpc.{Srpc, Message, Queue, ok, data_offset, enqueue, is_next, copied}
use hwdb_opendpi.Srpc.Reader.{Datagram, arrival, reader, ctl}
use hwdb_opendpi.Srpc.Reader.Keeps.{IsSrpc}
use hwdb_opendpi.Srpc.Reader.Queries.{
  HasAnswered, IsQuery, reader-query, on_query-new, new-HasAnswered,
}
use hwdb_opendpi.Srpc.Call.{returns, seqno_limit, rpc_response}
use hwdb_opendpi.Srpc.Trip.{
  Stale, wire, IsShort, key_of, in_one, copied_lem, answering, rpc_response-answers,
}

-- The server's end: the key finds the record `c`, which waits for the query behind number `n`.
pub record IsServer ⦃net : ByteOrder⦄ (key : RpcEndpoint) (n : ℕ) (svc : Name) (c : CRecord)
    (t : Srpc) : Type 0 where
  pub valid : IsSrpc t
  pub whole : length key.addr ≡ sockaddr_size
  pub known : ctable_lookup t.ctable key ≡ some c
  pub peer : c.ep ≡ key
  pub number : c.seqno ≡ n
  pub ready : (c.state ≡ st_idle) ⊎ (c.state ≡ st_response_sent)
  pub offered : c.svc ≡ some svc

is_next_suc : (x : ℕ) → is_next (x + 1) x ≡ true
is_next_suc x = let e : (x + 1 + 2 ^ 64 - x) % 2 ^ 64 ≡ 1 = omega arith in rw e refl

module _ ⦃net : ByteOrder⦄ (client : SockAddr) (old : Stale) (subport n : ℕ) (query : List ℕ) where
  -- The key under which the server sees the client, and the datagram of the query numbered behind
  -- `n`.
  abbrev pub key : RpcEndpoint
  key = key_of client subport

  abbrev pub d1 : Datagram
  d1 = wire client old (dat (in_one subport cmd_query (n + 1) query)) (data_offset + length query)

  abbrev pub qack : Packet
  qack = ctl (arrival d1).ep cmd_qack (arrival d1)

  abbrev pub qack_message : Message
  qack_message = record { to = key; packet = some qack; size = cp_size }

  pub number1 : n < seqno_limit → (arrival d1).seqno ≡ n + 1
  unfolding cp_complete
  number1 early = net.ntohl-htonl (n + 1) ∙ omega (arith, early)

  key1 : (arrival d1).ep ≡ key
  unfolding cp_complete
  key1 = refl

  d1-IsQuery : IsShort query → IsQuery d1
  unfolding cp_complete
  d1-IsQuery short = record { fits = omega (arith, short.1); command = net.ntohs-htons cmd_query }

  module _ (fill : ℕ) (cs : CRecord) (t : Srpc) (svc : Name) (st : Stable Queue)
      (short : IsShort query) (early : n < seqno_limit) (v : IsServer key n svc cs t)
      (queued : enqueue svc
          (record {
            sender = key;
            packet = in_one subport cmd_query (n + 1) query;
            size = data_offset + length query;
          })
          t.stable
        ≡ some st) where
    queued1 :
        enqueue svc
          (record { sender = cs.ep; packet = copied d1.n d1.payload; size = d1.n })
          t.stable
        ≡ some st
    queued1 = rw (v.peer, copied_lem subport cmd_query (n + 1) query old.bytes) queued

    next1 : is_next (arrival d1).seqno cs.seqno ≡ true
    next1 = rw (number1 early, v.number) (is_next_suc n)

    -- The server queues the query.
    pub server_queues :
        (t1 : Srpc) × (reader fill (some d1) t ≡ ok t1 (qack_message ∷ []))
        × HasAnswered (arrival d1) qack_message st t1
    server_queues =
        let to : cs.ep ≡ key = v.peer in
        let known1 : ctable_lookup t.ctable (arrival d1).ep ≡ some cs = rw key1 v.known in
        subst
          (λ e.
            (t1 : Srpc) × (reader fill (some d1) t
              ≡ ok t1 (record { to = e; packet = some qack; size = cp_size } ∷ []))
            × HasAnswered (arrival d1) (record { to = e; packet = some qack; size = cp_size }) st
                t1)
          to
          (
            _,
            reader-query fill d1 t (d1-IsQuery short)
                ∙ rw known1 (on_query-new (arrival d1) cs t svc st next1 v.ready v.offered queued1),
            new-HasAnswered (arrival d1) cs t svc st next1 v.ready v.offered queued1 v.valid
                (rw key1 v.whole) known1,
          )

    module _ (message : List ℕ) (small : IsShort message) where
      abbrev reply : DataPayload
      reply = in_one key.subport cmd_response (arrival d1).seqno message

      -- The server answers it.
      pub server_answers :
          (t1 : Srpc)
          → HasAnswered (arrival d1) qack_message st t1
          → (t2 : Srpc) × (rpc_response key message t1
              ≡ returns (some []) t2 (
                  record {
                    to = key;
                    packet = some (dat reply);
                    size = data_offset + length message;
                  }
                  ∷ []))
      server_answers t1 h =
          let to : h.cr.ep ≡ key = ap (λ m. m.to) h.answer in
          let known1 : ctable_lookup t1.ctable key ≡ some h.cr = rw⁻¹ key1 h.known in
          (
            record t1 {
              ctable = store (answering key message h.cr t1 known1 h.state small) t1.ctable;
            },
            rpc_response-answers key message h.cr t1 known1 h.state small ∙ rw (to, h.seqno) refl,
          )
