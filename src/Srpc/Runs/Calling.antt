-- ===== src/Srpc/Runs/Calling.antt =====
-- srpc.c: the steps of rpc_call leave a block with every record whose message is being put
-- together.
use hwdb_opendpi.Prelude.{
  ℕ, ◌+◌, ◌≡◌, ◌≢◌, sym, ◌∙◌, Option, none, some, [], arith, length, ltb, leb, ◌==◌, if◌then◌else◌,
  Option-cases, inl, inr, take,
}
use hwdb_opendpi.Endpoint.{ByteOrder}
use hwdb_opendpi.Payload.{DataPayload}
use hwdb_opendpi.Crecord.{
  CRecord, crecord_set_state, crecord_set_payload, crecord_wait_for_state, matched_state,
  st_fack_sent, st_fragment_sent, st_query_sent, st_idle,
}
use hwdb_opendpi.Ctable.{ctable_size, ctable_lookup, store}
use hwdb_opendpi.Ctable.Holds.{Holds, Holds-store}
use hwdb_opendpi.Srpc.{data_offset, Srpc}
use hwdb_opendpi.Srpc.Sending.{deref}
use hwdb_opendpi.Srpc.Reader.Effects.{IsSound, sound_in}
use hwdb_opendpi.Srpc.Call.{
  Call, seqno_limit, returns, faults as call_faults, Phase, seqno_wait, fragment_wait, answer_wait,
  idle_or_timedout, fack_or_timedout, call_next, call_start, call_reset, call_answer, resume,
  rpc_call, rpc_call_resume,
}
use hwdb_opendpi.Srpc.Call.Leaves.{
  Sent, Leaves, Resumes, Leaves-if, waiting, send_fragment-Sends, send_last-Sends, woken-Resumes,
}

abbrev pub Sound : Srpc → Type 0
Sound s = Holds IsSound s.ctable

-- A record that is sent is in a state that needs no block.
pub sent-IsSound : (st : ℕ) → st ≢ st_fack_sent → (c c' : CRecord) → Sent st c c' → IsSound c'
sent-IsSound st whole c c' sent e = absurd (whole (sym sent.state ∙ e))

module _ ⦃net : ByteOrder⦄ where
  none_ne : {st : ℕ} → none ≡ some st → ⊥
  none_ne e = cc

  module _ (s : Srpc) (wide : length s.ctable ≡ ctable_size) (h : Sound s) where
    call_next-Sound :
        (a : Call) (seqno fnum nfrags : ℕ) (cr : CRecord)
        → Leaves IsSound (call_next a seqno fnum nfrags cr s)
    unfolding call_next
    call_next-Sound a seqno fnum nfrags cr =
        Leaves-if IsSound (ltb fnum nfrags) _ _
          (waiting IsSound _ cr.self _ (
            send_fragment-Sends IsSound a.query a.ep cr s wide h seqno fnum nfrags
              (sent-IsSound st_fragment_sent (omega arith) cr)))
          (waiting IsSound _ cr.self _ (
            send_last-Sends IsSound a.query a.ep cr s wide h a.ep _ seqno fnum nfrags _
              st_query_sent (sent-IsSound st_query_sent (omega arith) cr)))

    call_start-Sound : (a : Call) (cr : CRecord) → Leaves IsSound (call_start a cr s)
    unfolding call_start
    call_start-Sound a cr = call_next-Sound a _ _ _ _

    call_reset-Sound : (a : Call) (cr : CRecord) → Leaves IsSound (call_reset a cr s)
    unfolding call_reset crecord_set_state crecord_set_payload
    call_reset-Sound a cr = Holds-store IsSound s.ctable wide h _ (sound_in _ _ (omega arith))

    pub rpc_call-Sound : (a : Call) → Leaves IsSound (rpc_call a s)
    unfolding rpc_call
    rpc_call-Sound a = elim (Option-cases (ctable_lookup s.ctable a.ep)) [
      | inl e ↦ rw (e, rpc_call) h
      | inr (cr, e) ↦
          rw (e, rpc_call)
            (Leaves-if IsSound (cr.state == st_idle) _ (returns none s [])
              (Leaves-if IsSound (leb seqno_limit cr.seqno) (call_reset a cr s) (call_start a cr s)
                (call_reset-Sound a cr) (call_start-Sound a cr))
              h)
    ]

    -- A call whose wait for the answer is over takes the block from a record that needs none.
    call_answer-Sound :
        (a : Call) (cr : CRecord) → cr.state ≢ st_fack_sent → Leaves IsSound (call_answer a cr s)
    unfolding call_answer
    call_answer-Sound a cr rests =
        by_block cr.resp
          (Holds-store IsSound s.ctable wide h (record cr { resp = none }) (sound_in _ _ rests))
      where
        s' : Srpc
        s' = record s { ctable = store (record cr { resp = none }) s.ctable }

        by_block :
            (o : Option DataPayload)
            → Sound s'
            → Leaves IsSound (
                if cr.state == st_idle
                then (elim o [
                  | none ↦ call_faults
                  | some buf ↦
                      let size = net.ntohs buf.dhdr.tlen in
                      if ltb buf.size data_offset
                      then call_faults
                      else if leb size a.rsize
                      then (if leb size (length buf.bytes)
                          then returns (some (take size buf.bytes)) s' []
                          else call_faults)
                      else returns none s' []
                ])
                else returns none s' [])
        by_block none k =
            Leaves-if IsSound (cr.state == st_idle) call_faults (returns none s' []) tt k
        by_block (some buf) k =
            let size = net.ntohs buf.dhdr.tlen in
            Leaves-if IsSound (cr.state == st_idle) _ (returns none s' [])
              (Leaves-if IsSound (ltb buf.size data_offset) call_faults _ tt (
                Leaves-if IsSound (leb size a.rsize) _ (returns none s' [])
                  (Leaves-if IsSound (leb size (length buf.bytes))
                    (returns (some (take size buf.bytes)) s' []) call_faults k tt)
                  k))
              k

    -- A wait for IDLE or TIMEDOUT ends in neither of the reader's other states.
    rests_lem :
        (cr : CRecord) (st : ℕ)
        → crecord_wait_for_state cr idle_or_timedout ≡ some st
        → cr.state ≢ st_fack_sent
    unfolding crecord_wait_for_state matched_state
    rests_lem cr st e is = none_ne (rw is at e)

    resume-Sound : (a : Call) (ph : Phase) (cr : CRecord) → Resumes IsSound (resume a ph cr s)
    unfolding resume
    resume-Sound a seqno_wait cr =
        woken-Resumes IsSound a.query a.ep cr s wide h (crecord_wait_for_state cr idle_or_timedout)
          (call_start a cr s) (call_start-Sound a cr)
    resume-Sound a (fragment_wait seqno fnum nfrags) cr =
        woken-Resumes IsSound a.query a.ep cr s wide h (crecord_wait_for_state cr fack_or_timedout)
          (call_next a seqno (fnum + 1) nfrags cr s) (call_next-Sound a seqno (fnum + 1) nfrags cr)
    resume-Sound a answer_wait cr =
        elim (Option-cases (crecord_wait_for_state cr idle_or_timedout)) [
          | inl n ↦ rw (n, resume) tt
          | inr (st, n) ↦ rw (n, resume) (call_answer-Sound a cr (rests_lem cr st n))
        ]

    pub rpc_call_resume-Sound :
        (a : Call) (ph : Phase) (p : ℕ) → Resumes IsSound (rpc_call_resume a ph p s)
    unfolding rpc_call_resume
    rpc_call_resume-Sound a ph p = elim (Option-cases (deref s.ctable a.ep p)) [
      | inl e ↦ rw (e, rpc_call_resume) tt
      | inr (cr, e) ↦ rw (e, rpc_call_resume) (resume-Sound a ph cr)
    ]
