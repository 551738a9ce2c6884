-- ===== src/Srpc/Trip/Unanswered.antt =====
-- srpc.c: a call whose peer keeps silent.
use hwdb_opendpi.Prelude.{
  ◌+◌, ◌<◌, ◌≡◌, ◌≢◌, refl, ap, ◌∙◌, none, some, [], ◌∷◌, arith, length, ==_of_eq, ==_of_ne,
}
use mathlib.Core.Path.{subst}
use hwdb_opendpi.Endpoint.{ByteOrder, sockaddr_size}
use hwdb_opendpi.Payload.{dat, cmd_query}
use hwdb_opendpi.Crecord.{
  CRecord, crecord_set_state, crecord_set_payload, crecord_wait_for_state, matched_state, st_idle,
  st_timedout, st_query_sent,
}
use hwdb_opendpi.Ctable.{ctable_lookup, store, retry, timed}
use hwdb_opendpi.Ctable.Backoff.{verdicts, quiet, send_schedule}
use hwdb_opendpi.Ctable.Lookup.{home, ctable_lookup-Found}
use hwdb_opendpi.Srpc.{Srpc, data_offset}
use hwdb_opendpi.Srpc.Sending.{deref}
use hwdb_opendpi.Srpc.Reader.Keeps.{IsSrpc}
use hwdb_opendpi.Srpc.Reader.Queries.{lookup_stored, kept}
use hwdb_opendpi.Srpc.Call.{
  Call, waits, returns, answer_wait, idle_or_timedout, seqno_limit, call_answer, resume, rpc_call,
  rpc_call_resume,
}
use hwdb_opendpi.Srpc.Timer.Silence.{
  find-Listed, find_self-Listed, Ends, Ends-quiet, ticked, ticked-IsSrpc, ticked-ends,
}
use hwdb_opendpi.Srpc.Trip.{IsShort, in_one, asking, rpc_call-asks}

-- The schedule of a message ends with its 254th scan.
schedule_ends :
    (c : CRecord)
    → verdicts 254 c
      ≡ quiet 1 (
          retry
          ∷ quiet 3 (
              retry
              ∷ quiet 7 (
                  retry
                  ∷ quiet 15
                      (retry ∷ quiet 31 (retry ∷ quiet 63 (retry ∷ quiet 127 (timed ∷ [])))))))
    → Ends 253 (verdicts 254 c)
schedule_ends c e = rw e (
    Ends-quiet 1 252 _ (
      refl,
      Ends-quiet 3 248 _ (
        refl,
        Ends-quiet 7 240 _ (
          refl,
          Ends-quiet 15 224 _ (
            refl,
            Ends-quiet 31 192 _
                (refl, Ends-quiet 63 128 _ (refl, Ends-quiet 127 0 (timed ∷ []) refl)),
          ),
        ),
      ),
    ))

module _ ⦃net : ByteOrder⦄ (a : Call) (c : CRecord) (s : Srpc) (v : IsSrpc s)
    (whole : length a.ep.addr ≡ sockaddr_size) (mine : ctable_lookup s.ctable a.ep ≡ some c)
    (idle : c.state ≡ st_idle) (early : c.seqno < seqno_limit) (short : IsShort a.query) where
  abbrev asked : CRecord
  asked = asking a c s mine idle early short

  abbrev s1 : Srpc
  s1 = record s { ctable = store asked s.ctable }

  valid1 : IsSrpc s1
  unfolding crecord_set_state crecord_set_payload
  valid1 = kept s asked (ctable_lookup-Found s.brk s.ctable v.table a.ep whole c mine).0.whole v

  found1 : ctable_lookup s1.ctable a.ep ≡ some asked
  unfolding crecord_set_state crecord_set_payload
  found1 = lookup_stored s a.ep c asked v whole mine refl refl

  asked_ends : Ends 253 (verdicts 254 asked)
  asked_ends = schedule_ends asked (
      send_schedule (record c { seqno = c.seqno + 1 })
        (dat (in_one a.ep.subport cmd_query (c.seqno + 1) a.query)) (data_offset + length a.query)
        st_query_sent refl (omega arith))

  live1 : asked.state ≢ st_timedout
  unfolding crecord_set_state
  live1 = omega arith

  self1 : asked.self ≡ c.self
  unfolding crecord_set_state crecord_set_payload
  self1 = refl

  timed_out :
      (c' : CRecord) × (deref (ticked 254 s1).ctable a.ep c.self ≡ some c')
      × (c'.state ≡ st_timedout)
  unfolding deref ctable_lookup
  timed_out =
      let (c', l, at, st) =
        ticked-ends 253 (home a.ep) s1 asked valid1 (find-Listed a.ep _ asked found1) live1
          asked_ends in
      (
        c',
        subst (λ p. deref (ticked 254 s1).ctable a.ep p ≡ some c') (at ∙ self1)
            (find_self-Listed _ c' ((ticked-IsSrpc 254 s1 valid1).table.distinct (home a.ep)) l),
        st,
      )

  wakes :
      (c' : CRecord)
      → c'.state ≡ st_timedout
      → crecord_wait_for_state c' idle_or_timedout ≡ some st_timedout
  unfolding crecord_wait_for_state matched_state
  wakes c' st =
      rw (==_of_ne c'.state st_idle (omega (arith, st)), ==_of_eq c'.state st_timedout st) refl

  gives_up :
      (c' : CRecord) (t : Srpc)
      → c'.state ≡ st_timedout
      → call_answer a c' t
        ≡ returns none (record t { ctable = store (record c' { resp = none }) t.ctable }) []
  unfolding call_answer
  gives_up c' t st = rw (==_of_ne c'.state st_idle (omega (arith, st)), call_answer) refl

  gives_up_waiting :
      (c' : CRecord) (t : Srpc)
      → c'.state ≡ st_timedout
      → resume a answer_wait c' t
        ≡ some (returns none (record t { ctable = store (record c' { resp = none }) t.ctable }) [])
  unfolding resume
  gives_up_waiting c' t st = rw (wakes c' st, resume) (ap some (gives_up c' t st))

  -- A call of 1 to 1024 bytes on an idle connection with a number below 10 ^ 9, in a well-formed
  -- state, sends its QUERY and waits; after 254 ticks of the timer, and nothing else, it returns
  -- without an answer.
  pub unanswered_call :
      (rpc_call a s
        ≡ waits answer_wait c.self s1 (
            record {
              to = a.ep;
              packet = some (dat (in_one a.ep.subport cmd_query (c.seqno + 1) a.query));
              size = data_offset + length a.query;
            }
            ∷ []))
      × (t : Srpc) × (rpc_call_resume a answer_wait c.self (ticked 254 s1)
          ≡ some (returns none t []))
  unfolding rpc_call_resume
  unanswered_call =
      let (c', found, st) = timed_out in
      (
        rpc_call-asks a c s mine idle early short,
        record (ticked 254 s1) {
          ctable = store (record c' { resp = none }) (ticked 254 s1).ctable;
        },
        rw (found, rpc_call_resume) (gives_up_waiting c' (ticked 254 s1) st),
      )
