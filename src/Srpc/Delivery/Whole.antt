-- ===== src/Srpc/Delivery/Whole.antt =====
-- srpc.c: the first and the last fragment of a query, and the whole query.
use hwdb_opendpi.Prelude.{
  ℕ, suc, ◌+◌, ◌-◌, ◌*◌, ◌≤◌, ◌≡◌, refl, sym, ap, ◌∙◌, ◌⊎◌, inl, inr, true, false, some, [], ◌∷◌,
  ◌++◌, arith, length, take, replicate, leb, ==_of_eq, ==_of_ne, length-replicate, take_all,
  drop_all, append-nil, leb_of_le, none, drop_all, append-nil, leb_of_le,
}
use hwdb_opendpi.Endpoint.{ByteOrder, sockaddr_size}
use hwdb_opendpi.Payload.{
  DataPayload, cp_size, cmd_query, cmd_qack, cmd_fragment, cmd_fack, attempts, ticks, fr_size,
}
use hwdb_opendpi.Stable.{Stable}
use hwdb_opendpi.Crecord.{
  CRecord, crecord_set_state, crecord_set_payload, st_idle, st_qack_sent, st_response_sent,
  st_fack_sent,
}
use hwdb_opendpi.Ctable.{ctable_lookup, store}
use hwdb_opendpi.Ctable.Lookup.{ctable_lookup-Found}
use hwdb_opendpi.Srpc.{
  Srpc, Queue, ok, update, memcpy_at, data_offset, first_fragment, enqueue, is_next,
}
use hwdb_opendpi.Srpc.Sending.{fragments_of}
use hwdb_opendpi.Srpc.Reader.{
  Datagram, arrival, ctl, reply, accept_query, last_of_query, on_query, accept_fragment,
  start_fragments, on_fragment, reader,
}
use hwdb_opendpi.Srpc.Reader.Keeps.{IsSrpc}
use hwdb_opendpi.Srpc.Reader.Queries.{lookup_stored, kept, is_next_self}
use hwdb_opendpi.Srpc.Delivery.{
  Transfer, Carries, Holds, ack_to, acknowledged, reader-data, reader-last, joined,
}

module _ ⦃net : ByteOrder⦄ (x : Transfer) where
  open x use {key, owner, seqno, m, svc}

  -- The first fragment, on a connection that waits for a query.
  module _ (d : Datagram) (c : CRecord) (s : Srpc) (fill : ℕ) (valid : IsSrpc s)
      (whole : length key.addr ≡ sockaddr_size) (known : ctable_lookup s.ctable key ≡ some c)
      (ready : (c.state ≡ st_idle) ⊎ (c.state ≡ st_response_sent))
      (next : is_next seqno c.seqno ≡ true) (service : c.svc ≡ some svc) (peer : c.ep ≡ owner)
      (w : Carries x d cmd_fragment 1 fr_size) (long : fr_size ≤ length m) where
    abbrev begun : CRecord
    begun =
        crecord_set_state
          (crecord_set_payload
            (record c {
              seqno = (arrival d).seqno;
              resp = some (record d.payload {
                bytes = take fr_size m ++ replicate (length m - fr_size) fill;
                size = data_offset + length m;
              });
              last_frag = (arrival d).fnum;
            })
            (ctl (arrival d).ep cmd_fack (arrival d)) cp_size attempts ticks)
          st_fack_sent

    first_block :
        first_fragment fill d.n (net.ntohs d.payload.dhdr.tlen) d.payload
        ≡ some (record d.payload {
          bytes = take fr_size m ++ replicate (length m - fr_size) fill;
          size = data_offset + length m;
        })
    unfolding first_fragment
    first_block =
        let e : leb (data_offset + fr_size) (data_offset + length m) ≡ true =
          leb_of_le _ _ (omega (arith, long)) in
        rw (w.size, w.tlen, e) (rw w.bytes refl)

    start_fragments_lem :
        start_fragments fill (arrival d) c s
        ≡ ok (record s { ctable = store begun s.ctable }) (acknowledged x cmd_fack d ∷ [])
    unfolding start_fragments accept_fragment reply update
    start_fragments_lem =
        rw (first_block, start_fragments)
          (ap (λ o. ok (record s { ctable = store begun s.ctable }) (ack_to x o cmd_fack d ∷ []))
            peer)

    on_fragment-first :
        on_fragment fill (arrival d) (some c) s ≡ start_fragments fill (arrival d) c s
    unfolding on_fragment
    on_fragment-first =
        let e : is_next (arrival d).seqno c.seqno ≡ true = rw w.number next in
        elim ready [
          | inl i ↦ rw (e, ==_of_eq c.state 1 i, ==_of_eq d.payload.hdr.fnum 1 w.fnum_lem)
          | inr i ↦ rw (
            e,
            ==_of_ne c.state 1 (omega arith),
            ==_of_eq c.state 3 i,
            ==_of_eq d.payload.hdr.fnum 1 w.fnum_lem,
          )
        ]

    pub first-Holds :
        (s' : Srpc) × (reader fill (some d) s ≡ ok s' (acknowledged x cmd_fack d ∷ []))
        × Holds x (record d.payload { size = data_offset + length m }) s.stable 1 s'
    unfolding crecord_set_state crecord_set_payload
    first-Holds =
        let found = ctable_lookup-Found s.brk s.ctable valid.table key whole c known in
        (
          record s { ctable = store begun s.ctable },
          reader-data x fill d s 1 fr_size (omega arith) w
              ∙ rw known (on_fragment-first ∙ start_fragments_lem),
          record {
            valid = kept s begun found.0.whole valid;
            queues = refl;
            cr = begun;
            known = lookup_stored s key c begun valid whole known refl refl;
            number = w.number;
            state = refl;
            last = w.fnum_lem;
            rest = replicate (length m - fr_size) fill;
            block = refl;
            size = omega (arith, length-replicate (length m - fr_size) fill);
            service = service;
            peer = peer;
          },
        )

  -- The last piece, in a QUERY.
  module _ (d : Datagram) (head : DataPayload) (st st' : Stable Queue) (f k : ℕ) (s : Srpc)
      (w : Holds x head st f s) (c : Carries x d cmd_query (suc f) k) (small : k ≤ fr_size)
      (ends : fr_size * f + k ≡ length m) (final : suc f ≡ fragments_of (length m))
      (queued : enqueue svc
          (record {
            sender = owner;
            packet = record head { bytes = m };
            size = data_offset + length m;
          })
          st
        ≡ some st') where
    complete :
        memcpy_at
          (take (fr_size * f) m ++ w.rest)
          (fr_size * (d.payload.hdr.fnum - 1))
          d.payload.bytes
          (net.ntohs d.payload.dhdr.flen)
        ≡ some m
    complete =
        joined x d cmd_query f k w.rest c (omega (arith, ends)) w.size
        ∙ rw (ends, take_all m, drop_all k w.rest (omega (arith, w.size, ends)), append-nil m) refl

    queued_here :
        enqueue svc
          (record {
            sender = w.cr.ep;
            packet = record head { bytes = m };
            size = data_offset + net.ntohs d.payload.dhdr.tlen;
          })
          s.stable
        ≡ some st'
    queued_here =
        rw (w.queues, c.tlen)
          (ap
              (λ o.
                enqueue svc
                  (record {
                    sender = o;
                    packet = record head { bytes = m };
                    size = data_offset + length m;
                  })
                  st)
              w.peer
            ∙ queued)

    abbrev finished : CRecord
    finished =
        crecord_set_state
          (crecord_set_payload (record w.cr { resp = none })
            (ctl (arrival d).ep cmd_qack (arrival d)) cp_size attempts ticks)
          st_qack_sent

    abbrev after : Srpc
    after = record s { ctable = store finished s.ctable; stable = st' }

    accept_query-queued :
        accept_query
          (arrival d)
          (record w.cr { resp = none })
          (record head { bytes = m })
          (data_offset + net.ntohs d.payload.dhdr.tlen)
          s
        ≡ ok after (ack_to x w.cr.ep cmd_qack d ∷ [])
    unfolding accept_query reply update
    accept_query-queued = simp (w.service, queued_here)

    last_of_query-queued :
        last_of_query (arrival d) w.cr s ≡ ok after (acknowledged x cmd_qack d ∷ [])
    unfolding last_of_query
    last_of_query-queued =
        rw (w.block, last_of_query, complete) accept_query-queued
        ∙ ap (λ o. ok after (ack_to x o cmd_qack d ∷ [])) w.peer

    on_query-last : on_query (arrival d) (some w.cr) s ≡ last_of_query (arrival d) w.cr s
    unfolding on_query
    on_query-last =
        let same : is_next (arrival d).seqno w.cr.seqno ≡ false =
          rw (c.number, w.number) (is_next_self seqno) in
        rw (
          same,
          ==_of_eq (arrival d).seqno w.cr.seqno (c.number ∙ sym w.number),
          ==_of_eq w.cr.state 12 w.state,
          ==_of_eq d.payload.hdr.fnum (w.cr.last_frag + 1) (omega (arith, c.fnum_lem, w.last)),
          ==_of_eq d.payload.hdr.fnum d.payload.hdr.nfrags (c.fnum_lem ∙ final ∙ sym c.nfrags),
        )

    pub last-queued :
        (fill : ℕ)
        → (s' : Srpc) × (reader fill (some d) s ≡ ok s' (acknowledged x cmd_qack d ∷ []))
          × (s'.stable ≡ st')
    last-queued fill = (
      after,
      reader-last x fill d s (suc f) k small c ∙ rw w.known (on_query-last ∙ last_of_query-queued),
      refl,
    )
