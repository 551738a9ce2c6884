-- ===== src/Srpc/Reader/Queries.antt =====
-- srpc.c, `reader`: a query is queued once, however often its datagram arrives.
use hwdb_opendpi.Prelude.{
  ℕ, zero, suc, ◌+◌, ◌-◌, ◌%◌, ◌^◌, ◌<◌, ◌≡◌, refl, ◌∙◌, ◌⊎◌, inl, inr, true, false, some, [], ◌∷◌,
  arith, length, replicate, ltb, ==_of_eq, ==_of_ne,
}
use hwdb_opendpi.Endpoint.{ByteOrder, RpcEndpoint, sockaddr_size, endpoint_complete}
use hwdb_opendpi.Payload.{cp_size, cmd_query, cmd_qack, attempts, ticks}
use hwdb_opendpi.Stable.{Name, Stable}
use hwdb_opendpi.Crecord.{
  CRecord, crecord_set_state, crecord_set_payload, st_idle, st_qack_sent, st_response_sent,
}
use hwdb_opendpi.Ctable.{ctable_lookup, store}
use hwdb_opendpi.Ctable.Lookup.{ctable_lookup-store, ctable_lookup-Found, home}
use hwdb_opendpi.Ctable.Invariant.{store-IsTable}
use hwdb_opendpi.Srpc.{Srpc, Message, ok, Queue, update, enqueue, is_next, resend, copied}
use hwdb_opendpi.Srpc.Reader.{
  Arrival, Datagram, arrival, buf_size, ctl, reply, accept_query, on_query, dispatch, reader,
  reader_loop,
}
use hwdb_opendpi.Srpc.Reader.Keeps.{IsSrpc, enqueue-services}

-- The record that the key of `a` finds has answered the query `a`, with the message `m`.
pub record HasAnswered (a : Arrival) (m : Message) (st : Stable Queue) (s : Srpc) : Type 0 where
  pub valid : IsSrpc s
  pub whole : length a.ep.addr ≡ sockaddr_size
  pub queues : s.stable ≡ st
  pub cr : CRecord
  pub known : ctable_lookup s.ctable a.ep ≡ some cr
  pub seqno : a.seqno ≡ cr.seqno
  pub state : cr.state ≡ st_qack_sent
  pub answer : resend cr ≡ m

pub lookup_stored :
    (s : Srpc) (ep : RpcEndpoint) (c c' : CRecord)
    → IsSrpc s
    → length ep.addr ≡ sockaddr_size
    → ctable_lookup s.ctable ep ≡ some c
    → c'.self ≡ c.self
    → c'.ep ≡ c.ep
    → ctable_lookup (store c' s.ctable) ep ≡ some c'
lookup_stored s ep c c' v whole found self key =
    ctable_lookup-store s.brk s.ctable v.table ep whole c found c' ep self key whole
    ∙ rw (==_of_eq (home ep) (home ep) refl, ==_of_eq ep.subport ep.subport refl) refl

pub kept :
    (s : Srpc) (c : CRecord)
    → length c.ep.addr ≡ sockaddr_size
    → IsSrpc s
    → IsSrpc (record s { ctable = store c s.ctable })
kept s c whole v = record {
  table = store-IsTable s.brk c s.ctable whole v.table;
  alive = v.alive;
  services = v.services;
}

pub is_next_self : (x : ℕ) → is_next x x ≡ false
is_next_self x = let e : (x + 2 ^ 64 - x) % 2 ^ 64 ≡ 0 = omega arith in rw e

module _ ⦃net : ByteOrder⦄ where
  -- A query whose number is the record's, after the acknowledgement.
  on_query-again :
      (a : Arrival) (c : CRecord) (s : Srpc)
      → a.seqno ≡ c.seqno
      → c.state ≡ st_qack_sent
      → on_query a (some c) s ≡ update (crecord_set_state c c.state) s (resend c ∷ [])
  unfolding on_query
  on_query-again a c s same answered =
      let e : is_next a.seqno c.seqno ≡ false = rw same (is_next_self c.seqno) in
      rw (
        e,
        ==_of_eq a.seqno c.seqno same,
        ==_of_eq c.state st_qack_sent answered,
        ==_of_ne c.state 12 (omega arith),
      )

  again-HasAnswered :
      (a : Arrival) (m : Message) (st : Stable Queue) (s : Srpc)
      → HasAnswered a m st s
      → (s' : Srpc) × (on_query a (ctable_lookup s.ctable a.ep) s ≡ ok s' (m ∷ []))
        × HasAnswered a m st s'
  unfolding update crecord_set_state
  again-HasAnswered a m st s w =
      let c' : CRecord = crecord_set_state w.cr w.cr.state in
      let whole' : length w.cr.ep.addr ≡ sockaddr_size =
        (ctable_lookup-Found s.brk s.ctable w.valid.table a.ep w.whole w.cr w.known).0.whole in
      (
        record s { ctable = store c' s.ctable },
        rw w.known (on_query-again a w.cr s w.seqno w.state ∙ rw w.answer),
        record {
          valid = kept s c' whole' w.valid;
          whole = w.whole;
          queues = w.queues;
          cr = c';
          known = lookup_stored s a.ep w.cr c' w.valid w.whole w.known refl refl;
          seqno = w.seqno;
          state = w.state;
          answer = w.answer;
        },
      )

  -- A new query: the next number, on a record that is idle or has sent its response.
  module _ (a : Arrival) (c : CRecord) (s : Srpc) (svc : Name) (st : Stable Queue)
      (next : is_next a.seqno c.seqno ≡ true)
      (ready : (c.state ≡ st_idle) ⊎ (c.state ≡ st_response_sent)) (offered : c.svc ≡ some svc)
      (queued : enqueue svc
          (record { sender = c.ep; packet = copied a.n a.dp; size = a.n })
          s.stable
        ≡ some st) where
    abbrev pub ack : Message
    ack = record { to = c.ep; packet = some (ctl a.ep cmd_qack a); size = cp_size }

    abbrev pub answered : CRecord
    answered =
        crecord_set_state
          (crecord_set_payload (record c { seqno = a.seqno }) (ctl a.ep cmd_qack a) cp_size attempts
            ticks)
          st_qack_sent

    accept_query-queued :
        accept_query a (record c { seqno = a.seqno }) (copied a.n a.dp) a.n s
        ≡ ok (record s { ctable = store answered s.ctable; stable = st }) (ack ∷ [])
    unfolding accept_query reply update
    accept_query-queued = simp (offered, queued)

    pub on_query-new :
        on_query a (some c) s
        ≡ ok (record s { ctable = store answered s.ctable; stable = st }) (ack ∷ [])
    unfolding on_query
    on_query-new = elim ready [
      | inl e ↦ rw (next, ==_of_eq c.state st_idle e) accept_query-queued
      | inr e ↦
          rw (next, ==_of_eq c.state st_response_sent e, ==_of_ne c.state st_idle (omega arith))
            accept_query-queued
    ]

    -- Behind a new query its record has answered it.
    pub new-HasAnswered :
        IsSrpc s
        → length a.ep.addr ≡ sockaddr_size
        → ctable_lookup s.ctable a.ep ≡ some c
        → HasAnswered a ack st (record s { ctable = store answered s.ctable; stable = st })
    unfolding crecord_set_state crecord_set_payload
    new-HasAnswered v whole found =
        let whole' : length c.ep.addr ≡ sockaddr_size =
          (ctable_lookup-Found s.brk s.ctable v.table a.ep whole c found).0.whole in
        let valid' : IsSrpc (record s { ctable = store answered s.ctable; stable = st }) = record {
          table = store-IsTable s.brk answered s.ctable whole' v.table;
          alive = v.alive;
          services = enqueue-services svc _ s.stable st queued ∙ v.services;
        } in
        record {
          valid = valid';
          whole = whole;
          queues = refl;
          cr = answered;
          known = lookup_stored s a.ep c answered v whole found refl refl;
          seqno = refl;
          state = refl;
          answer = refl;
        }

  -- The datagram `d` is a query that fits the buffer.
  pub record IsQuery (d : Datagram) : Type 0 where
    pub fits : d.n < buf_size
    pub command : net.ntohs d.payload.hdr.command ≡ cmd_query

  pub reader-query :
      (fill : ℕ) (d : Datagram) (s : Srpc)
      → IsQuery d
      → reader fill (some d) s ≡ on_query (arrival d) (ctable_lookup s.ctable (arrival d).ep) s
  unfolding reader dispatch
  reader-query fill d s q =
      let e : ltb d.n buf_size ≡ true = ground (arith, q.fits) in rw (e, q.command)

  -- The rounds of a loop over copies of one answered query.
  repeated :
      (fill k : ℕ) (d : Datagram) (m : Message) (st : Stable Queue) (s : Srpc)
      → IsQuery d
      → HasAnswered (arrival d) m st s
      → (s' : Srpc) × (reader_loop fill (replicate k (some d)) s ≡ ok s' (replicate k m))
        × (s'.stable ≡ st)
  unfolding reader_loop
  repeated fill zero d m st s q w = (s, refl, w.queues)
  repeated fill (suc k) d m st s q w =
      let (s1, run1, w1) = again-HasAnswered (arrival d) m st s w in
      let (s2, run2, same) = repeated fill k d m st s1 q w1 in
      (s2, rw (reader-query fill d s q, run1, run2), same)

  -- A query with the next number, for an offered service, on a known connection that is idle or
  -- has sent its response, is put on the service's queue once and acknowledged, and every further
  -- copy of its datagram is answered by the same acknowledgement and changes no queue.
  pub query_once :
      (fill k : ℕ) (d : Datagram) (c : CRecord) (s : Srpc) (svc : Name) (st : Stable Queue)
      → IsQuery d
      → IsSrpc s
      → length d.sender ≡ sockaddr_size
      → ctable_lookup s.ctable (arrival d).ep ≡ some c
      → is_next (arrival d).seqno c.seqno ≡ true
      → (c.state ≡ st_idle) ⊎ (c.state ≡ st_response_sent)
      → c.svc ≡ some svc
      → enqueue svc (record { sender = c.ep; packet = copied d.n d.payload; size = d.n }) s.stable
        ≡ some st
      → (s' : Srpc) × (reader_loop fill (replicate (suc k) (some d)) s
          ≡ ok s' (
              replicate (suc k) (record {
                to = c.ep;
                packet = some (ctl (arrival d).ep cmd_qack (arrival d));
                size = cp_size;
              })))
        × (s'.stable ≡ st)
  unfolding reader_loop endpoint_complete
  query_once fill k d c s svc st q v whole found next ready offered queued =
      let w = new-HasAnswered (arrival d) c s svc st next ready offered queued v whole found in
      let (s', run, same) = repeated fill k d _ st _ q w in
      (
        s',
        rw (
          reader-query fill d s q,
          found,
          on_query-new (arrival d) c s svc st next ready offered queued,
          run,
        ),
        same,
      )
