-- ===== src/Srpc/Call.antt =====
-- srpc.c: rpc_call and rpc_response. A call is cut at its waits: it begins under the mutex, and
-- goes on from a `Phase` each time that the record's state is one that it waits for. Between two
-- steps the reader, the timer and other threads run.
pub mod Sends
pub mod Keeps
pub mod Leaves
pub mod Late
pub mod Resumes
use hwdb_opendpi.Prelude.{
  ℕ, ◌+◌, ◌-◌, ◌*◌, ◌%◌, ◌^◌, Bool, true, false, Option, none, some, List, [], ◌∷◌, ltb, leb, ◌==◌,
  if◌then◌else◌, length, take,
}
use hwdb_opendpi.Endpoint.{ByteOrder, RpcEndpoint}
use hwdb_opendpi.Payload.{
  control, DataPayload, cp_complete, cp_size, attempts, ticks, cmd_seqno, cmd_query, cmd_response,
}
use hwdb_opendpi.Crecord.{
  CRecord, crecord_set_state, crecord_set_payload, crecord_wait_for_state, st_idle, st_qack_sent,
  st_response_sent, st_query_sent, st_timedout, st_fack_received, st_seqno_sent,
}
use hwdb_opendpi.Ctable.{ctable_lookup, store}
use hwdb_opendpi.Srpc.{Srpc, Message, data_offset}
use hwdb_opendpi.Srpc.Sending.{deref, fragments_of, last_length, send_fragment, send_last}

abbrev pub seqno_limit : ℕ
seqno_limit = 1000000000

abbrev pub seqno_start : ℕ
seqno_start = 0

-- Where a call waits: for the SACK, for the FACK of fragment `fnum` of `nfrags`, for the response.
pub data Phase : Type 0 where
  seqno_wait : Phase
  fragment_wait : (seqno fnum nfrags : ℕ) → Phase
  answer_wait : Phase

-- A step of a call: it waits, at the record of that address, it returns, or it leaves an object. A
-- call that succeeds returns the bytes that it stores through `resp` and `rlen` (none, for a
-- response); `none` is the result 0.
pub data Step : Type 0 where
  waits : Phase → ℕ → Srpc → List Message → Step
  returns : Option (List ℕ) → Srpc → List Message → Step
  faults : Step

-- The arguments of rpc_call.
pub record Call : Type 0 where
  pub ep : RpcEndpoint
  pub query : List ℕ
  pub rsize : ℕ

abbrev pub idle_or_timedout : List ℕ
idle_or_timedout = st_idle ∷ st_timedout ∷ []

abbrev pub fack_or_timedout : List ℕ
fack_or_timedout = st_fack_received ∷ st_timedout ∷ []

module _ ⦃net : ByteOrder⦄ where
  abbrev pub waiting_in : Phase → ℕ → Option (Srpc × Message) → Step
  waiting_in ph p none = faults
  waiting_in ph p (some (s, m)) = waits ph p s (m ∷ [])

  abbrev pub returning_after : Option (Srpc × Message) → Step
  returning_after none = faults
  returning_after (some (s, m)) = returns (some []) s (m ∷ [])

  -- The loop's test, and what follows the loop.
  unfoldable pub call_next : Call → ℕ → ℕ → ℕ → CRecord → Srpc → Step
  call_next a seqno fnum nfrags cr s =
      if ltb fnum nfrags
      then waiting_in (fragment_wait seqno fnum nfrags) cr.self
          (send_fragment a.query a.ep seqno fnum nfrags cr s)
      else waiting_in answer_wait cr.self (
          send_last a.query a.ep a.ep cmd_query seqno fnum nfrags
            ((data_offset + last_length (length a.query) nfrags) % 2 ^ 16) st_query_sent cr s)

  -- `cr->seqno++` and the number of fragments.
  unfoldable pub call_start : Call → CRecord → Srpc → Step
  unfolding call_next
  call_start a cr s =
      let seqno = (cr.seqno + 1) % 2 ^ 64 in
      call_next a seqno 1 (fragments_of (length a.query)) (record cr { seqno = seqno }) s

  unfoldable pub call_reset : Call → CRecord → Srpc → Step
  call_reset a cr s =
      let p = control (cp_complete a.ep.subport cmd_seqno seqno_start 1 1) in
      let c = crecord_set_payload (record cr { seqno = seqno_start }) p cp_size attempts ticks in
      waits seqno_wait cr.self
        (record s { ctable = store (crecord_set_state c st_seqno_sent) s.ctable })
        (record { to = a.ep; packet = some p; size = cp_size } ∷ [])

  unfoldable pub rpc_call : Call → Srpc → Step
  unfolding call_start call_reset
  rpc_call a s = elim (ctable_lookup s.ctable a.ep) [
    | none ↦ returns none s []
    | some cr ↦
        if cr.state == st_idle
        then (if leb seqno_limit cr.seqno then call_reset a cr s else call_start a cr s)
        else returns none s []
  ]

  -- What follows the wait for the response. In state IDLE the block in `resp` is read, though it
  -- may be NULL.
  unfoldable pub call_answer : Call → CRecord → Srpc → Step
  call_answer a cr s =
      let s' = record s { ctable = store (record cr { resp = none }) s.ctable } in
      if cr.state == st_idle
      then (elim cr.resp [
        | none ↦ faults
        | some buf ↦
            let size = net.ntohs buf.dhdr.tlen in
            if ltb buf.size data_offset
            then faults
            else if leb size a.rsize
            then (if leb size (length buf.bytes)
                then returns (some (take size buf.bytes)) s' []
                else faults)
            else returns none s' []
      ])
      else returns none s' []

  -- The call after a wait: `none` while it goes on waiting.
  abbrev pub woken : Option ℕ → Srpc → Step → Option Step
  woken none s k = none
  woken (some st) s k = some (if st == st_timedout then returns none s [] else k)

  unfoldable pub resume : Call → Phase → CRecord → Srpc → Option Step
  unfolding call_start call_answer
  resume a seqno_wait cr s =
      woken (crecord_wait_for_state cr idle_or_timedout) s (call_start a cr s)
  resume a (fragment_wait seqno fnum nfrags) cr s =
      woken (crecord_wait_for_state cr fack_or_timedout) s
        (call_next a seqno (fnum + 1) nfrags cr s)
  resume a answer_wait cr s = elim (crecord_wait_for_state cr idle_or_timedout) [
    | none ↦ none
    | some st ↦ some (call_answer a cr s)
  ]

  -- The waiting thread looks at its record, which may have been purged and freed.
  unfoldable pub rpc_call_resume : Call → Phase → ℕ → Srpc → Option Step
  unfolding resume deref
  rpc_call_resume a ph p s = elim (deref s.ctable a.ep p) [
    | none ↦ some faults
    | some cr ↦ resume a ph cr s
  ]

  -- rpc_response: the result is 1 once RESPONSE is sent. `cr->seqno` is read in every round.
  unfoldable pub response_next : RpcEndpoint → List ℕ → ℕ → ℕ → CRecord → Srpc → Step
  response_next ep message fnum nfrags cr s =
      if ltb fnum nfrags
      then waiting_in (fragment_wait cr.seqno fnum nfrags) cr.self
          (send_fragment message ep cr.seqno fnum nfrags cr s)
      else returning_after (
          send_last message ep cr.ep cmd_response cr.seqno fnum nfrags
            (data_offset + last_length (length message) nfrags) st_response_sent cr s)

  unfoldable pub rpc_response : RpcEndpoint → List ℕ → Srpc → Step
  unfolding response_next
  rpc_response ep message s = elim (ctable_lookup s.ctable ep) [
    | none ↦ returns none s []
    | some cr ↦
        if cr.state == st_qack_sent
        then response_next ep message 1 (fragments_of (length message)) cr s
        else returns none s []
  ]

  unfoldable pub rpc_response_resume : RpcEndpoint → List ℕ → ℕ → ℕ → ℕ → Srpc → Option Step
  unfolding response_next deref
  rpc_response_resume ep message fnum nfrags p s = elim (deref s.ctable ep p) [
    | none ↦ some faults
    | some cr ↦
        woken (crecord_wait_for_state cr fack_or_timedout) s
          (response_next ep message (fnum + 1) nfrags cr s)
  ]
