-- ===== src/Srpc/Call/Late.antt =====
-- srpc.c: what a QACK does to the record of a call, in time and behind the answer.
use hwdb_opendpi.Prelude.{ℕ, ◌<◌, ◌≡◌, refl, true, none, some, [], arith, length, ltb, ==_of_eq}
use hwdb_opendpi.Endpoint.{ByteOrder, sockaddr_size}
use hwdb_opendpi.Payload.{cmd_qack}
use hwdb_opendpi.Crecord.{
  CRecord, crecord_set_state, crecord_wait_for_state, matched_state, st_awaiting_response,
}
use hwdb_opendpi.Ctable.{ctable_lookup, store}
use hwdb_opendpi.Srpc.{Srpc, ok, update}
use hwdb_opendpi.Srpc.Reader.{Datagram, arrival, buf_size, on_ack, dispatch, reader}
use hwdb_opendpi.Srpc.Reader.Keeps.{IsSrpc}
use hwdb_opendpi.Srpc.Reader.Queries.{lookup_stored}
use hwdb_opendpi.Srpc.Call.{Call, returns, answer_wait, resume, rpc_call, rpc_call_resume}
use hwdb_opendpi.Srpc.Call.Resumes.{deref-store}

module _ ⦃net : ByteOrder⦄ (fill : ℕ) (d : Datagram) (c : CRecord) (s : Srpc)
    (known : ctable_lookup s.ctable (arrival d).ep ≡ some c) (fits : d.n < buf_size)
    (command : net.ntohs d.payload.hdr.command ≡ cmd_qack)
    (same : (arrival d).seqno ≡ c.seqno) where
  -- The record waits for its response, whatever its state was.
  abbrev pub awaiting : CRecord
  awaiting = crecord_set_state c st_awaiting_response

  pub reader-qack : reader fill (some d) s ≡ ok (record s { ctable = store awaiting s.ctable }) []
  unfolding reader dispatch on_ack update
  reader-qack =
      let e : ltb d.n buf_size ≡ true = ground arith in
      rw (e, command, known, on_ack, ==_of_eq (arrival d).seqno c.seqno same) refl

  -- A QACK of the record's number that fits the buffer, in a well-formed state, whatever the
  -- record's state is, also when it is idle behind the response: the reader sends nothing, a caller
  -- who waits for the response and has not yet looked at the record waits on, and a new rpc_call on
  -- the connection is refused at once.
  pub qack_strands :
      (a : Call)
      → IsSrpc s
      → length a.ep.addr ≡ sockaddr_size
      → ctable_lookup s.ctable a.ep ≡ some c
      → (s' : Srpc) × (reader fill (some d) s ≡ ok s' [])
        × (rpc_call_resume a answer_wait c.self s' ≡ none)
        × ((a' : Call) → a'.ep ≡ a.ep → rpc_call a' s' ≡ returns none s' [])
  unfolding rpc_call rpc_call_resume resume crecord_wait_for_state matched_state crecord_set_state
  qack_strands a v whole mine = (
    record s { ctable = store awaiting s.ctable },
    reader-qack,
    rw (deref-store s a.ep c awaiting v whole mine refl refl, rpc_call_resume) refl,
    λ a' to. rw (to, lookup_stored s a.ep c awaiting v whole mine refl refl, rpc_call) refl,
  )
