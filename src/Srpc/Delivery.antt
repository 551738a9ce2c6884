-- ===== src/Srpc/Delivery.antt =====
-- srpc.c: a query that is cut into fragments, at the server. The datagrams carry the packets that
-- `rpc_call` makes; the reader joins them and queues the message.
pub mod Whole
pub mod Fragmented
use hwdb_opendpi.Prelude.{
  ℕ, zero, suc, ◌+◌, ◌-◌, ◌*◌, ◌%◌, ◌^◌, ◌<◌, ◌≤◌, ◌≡◌, refl, sym, ap, ◌∙◌, ◌⊎◌, inl, inr, true,
  false, Option, some, List, [], ◌∷◌, ◌++◌, arith, length, take, drop, replicate, ltb, leb,
  ==_of_eq, ==_of_ne, length-append, length-take, length-drop, length-replicate, take-take_append,
  take_all,
}
use hwdb_opendpi.Endpoint.{ByteOrder, SockAddr, RpcEndpoint, sockaddr_size, endpoint_complete}
use hwdb_opendpi.Payload.{
  DataPayload, cp_complete, cp_size, cmd_query, cmd_qack, cmd_fragment, cmd_fack, attempts, ticks,
  fr_size,
}
use hwdb_opendpi.Stable.{Name, Stable}
use hwdb_opendpi.Crecord.{
  CRecord, crecord_set_state, crecord_set_payload, st_idle, st_qack_sent, st_response_sent,
  st_fack_sent,
}
use hwdb_opendpi.Ctable.{ctable_lookup, store}
use hwdb_opendpi.Ctable.Lookup.{ctable_lookup-Found}
use hwdb_opendpi.Srpc.{
  Srpc, Message, Queue, Request, ok, update, memcpy_at, data_offset, first_fragment, enqueue,
  is_next,
}
use hwdb_opendpi.Srpc.Sending.{fragments_of, last_length, data_packet}
use hwdb_opendpi.Srpc.Sending.Pieces.{longest, fragments_of_lem, last_length_lem, memcpy_at-slice}
use hwdb_opendpi.Srpc.Reader.{
  Datagram, arrival, buf_size, ctl, reply, accept_query, last_of_query, on_query, accept_fragment,
  start_fragments, next_fragment, on_fragment, dispatch, reader, reader_loop,
}
use hwdb_opendpi.Srpc.Reader.Keeps.{IsSrpc, enqueue-services}
use hwdb_opendpi.Srpc.Reader.Queries.{lookup_stored, kept, is_next_self}

-- A message for the service `svc`, under the number `seqno`. The server looks the connection up
-- by `key` and knows its peer as `owner`.
pub record Transfer : Type 0 where
  pub key : RpcEndpoint
  pub owner : RpcEndpoint
  pub seqno : ℕ
  pub m : List ℕ
  pub svc : Name

module _ ⦃net : ByteOrder⦄ (x : Transfer) where
  open x use {key, owner, seqno, m, svc}

  -- The datagram `d` holds `k` bytes of the message as its piece `fnum`.
  pub record Carries (d : Datagram) (cmd fnum k : ℕ) : Type 0 where
    pub size : d.n ≡ data_offset + k
    pub command : net.ntohs d.payload.hdr.command ≡ cmd
    pub from : (arrival d).ep ≡ key
    pub number : (arrival d).seqno ≡ seqno
    pub fnum_lem : d.payload.hdr.fnum ≡ fnum
    pub nfrags : d.payload.hdr.nfrags ≡ fragments_of (length m)
    pub tlen : net.ntohs d.payload.dhdr.tlen ≡ length m
    pub flen : net.ntohs d.payload.dhdr.flen ≡ k
    pub bytes : take k d.payload.bytes ≡ take k (drop (fr_size * (fnum - 1)) m)
    pub long : k ≤ length d.payload.bytes

  -- The record of the connection has the first `f` pieces in its block, whose headers are `head`'s.
  pub record Holds (head : DataPayload) (st : Stable Queue) (f : ℕ) (s : Srpc) : Type 0 where
    pub valid : IsSrpc s
    pub queues : s.stable ≡ st
    pub cr : CRecord
    pub known : ctable_lookup s.ctable key ≡ some cr
    pub number : cr.seqno ≡ seqno
    pub state : cr.state ≡ st_fack_sent
    pub last : cr.last_frag ≡ f
    pub rest : List ℕ
    pub block : cr.resp ≡ some (record head { bytes = take (fr_size * f) m ++ rest })
    pub size : fr_size * f + length rest ≡ length m
    pub service : cr.svc ≡ some svc
    pub peer : cr.ep ≡ owner

  abbrev pub ack_to : RpcEndpoint → ℕ → Datagram → Message
  ack_to to cmd d = record {
    to = to;
    packet = some (ctl (arrival d).ep cmd (arrival d));
    size = cp_size;
  }

  abbrev pub acknowledged : ℕ → Datagram → Message
  acknowledged cmd d = ack_to owner cmd d

  pub reader-data :
      (fill : ℕ) (d : Datagram) (s : Srpc) (fnum k : ℕ)
      → k ≤ fr_size
      → Carries d cmd_fragment fnum k
      → reader fill (some d) s ≡ on_fragment fill (arrival d) (ctable_lookup s.ctable key) s
  unfolding reader dispatch
  reader-data fill d s fnum k h c =
      let e : ltb d.n buf_size ≡ true = ground (arith, c.size) in rw (e, c.command, c.from)

  pub reader-last :
      (fill : ℕ) (d : Datagram) (s : Srpc) (fnum k : ℕ)
      → k ≤ fr_size
      → Carries d cmd_query fnum k
      → reader fill (some d) s ≡ on_query (arrival d) (ctable_lookup s.ctable key) s
  unfolding reader dispatch
  reader-last fill d s fnum k h c =
      let e : ltb d.n buf_size ≡ true = ground (arith, c.size) in rw (e, c.command, c.from)

  -- The piece behind the first `f` is written behind them.
  pub joined :
      (d : Datagram) (cmd f k : ℕ) (rest : List ℕ)
      → Carries d cmd (suc f) k
      → fr_size * f + k ≤ length m
      → fr_size * f + length rest ≡ length m
      → memcpy_at
          (take (fr_size * f) m ++ rest)
          (fr_size * (d.payload.hdr.fnum - 1))
          d.payload.bytes
          (net.ntohs d.payload.dhdr.flen)
        ≡ some (take (fr_size * f + k) m ++ drop k rest)
  joined d cmd f k rest c h l =
      let o : fr_size * (d.payload.hdr.fnum - 1) ≡ fr_size * f = omega (arith, c.fnum_lem) in
      let o' : fr_size * (suc f - 1) ≡ fr_size * f = omega arith in
      let same : take k d.payload.bytes ≡ take k (drop (fr_size * f) m) = rw (← o') c.bytes in
      rw (o, c.flen) (memcpy_at-slice m rest d.payload.bytes (fr_size * f) k same c.long h l)

  -- A further fragment.
  module _ (d : Datagram) (head : DataPayload) (st : Stable Queue) (f : ℕ) (s : Srpc)
      (w : Holds head st f s) (c : Carries d cmd_fragment (suc f) fr_size)
      (room : fr_size * f + fr_size ≤ length m) (whole : length key.addr ≡ sockaddr_size) where
    abbrev grown : CRecord
    grown =
        crecord_set_state
          (crecord_set_payload
            (record w.cr {
              resp =
                  some
                    (record head { bytes = take (fr_size * f + fr_size) m ++ drop fr_size w.rest });
              last_frag = (arrival d).fnum;
            })
            (ctl (arrival d).ep cmd_fack (arrival d)) cp_size attempts ticks)
          st_fack_sent

    next_fragment_lem :
        next_fragment (arrival d) w.cr s
        ≡ ok (record s { ctable = store grown s.ctable }) (acknowledged cmd_fack d ∷ [])
    unfolding next_fragment accept_fragment reply update
    next_fragment_lem =
        rw (w.block, next_fragment, joined d cmd_fragment f fr_size w.rest c room w.size)
          (ap (λ o. ok (record s { ctable = store grown s.ctable }) (ack_to o cmd_fack d ∷ []))
            w.peer)

    on_fragment-next :
        (fill : ℕ) → on_fragment fill (arrival d) (some w.cr) s ≡ next_fragment (arrival d) w.cr s
    unfolding on_fragment
    on_fragment-next fill = rw (
      ==_of_ne w.cr.state 1 (omega (arith, w.state)),
      ==_of_ne w.cr.state 3 (omega (arith, w.state)),
      ==_of_ne w.cr.state 5 (omega (arith, w.state)),
      ==_of_ne w.cr.state 6 (omega (arith, w.state)),
      ==_of_eq w.cr.state 12 w.state,
      ==_of_eq (arrival d).seqno w.cr.seqno (c.number ∙ sym w.number),
      ==_of_eq d.payload.hdr.fnum (w.cr.last_frag + 1) (omega (arith, c.fnum_lem, w.last)),
    )

    pub fragment-Holds :
        (fill : ℕ)
        → (s' : Srpc) × (reader fill (some d) s ≡ ok s' (acknowledged cmd_fack d ∷ []))
          × Holds head st (suc f) s'
    unfolding crecord_set_state crecord_set_payload
    fragment-Holds fill =
        let found = ctable_lookup-Found s.brk s.ctable w.valid.table key whole w.cr w.known in
        let o : fr_size * f + fr_size ≡ fr_size * suc f = omega arith in
        (
          record s { ctable = store grown s.ctable },
          reader-data fill d s (suc f) fr_size (omega arith) c
              ∙ rw w.known (on_fragment-next fill ∙ next_fragment_lem),
          record {
            valid = kept s grown found.0.whole w.valid;
            queues = w.queues;
            cr = grown;
            known = lookup_stored s key w.cr grown w.valid whole w.known refl refl;
            number = w.number;
            state = refl;
            last = c.fnum_lem;
            rest = drop fr_size w.rest;
            block = rw o refl;
            size = omega (arith, w.size, length-drop fr_size w.rest);
            service = w.service;
            peer = w.peer;
          },
        )
