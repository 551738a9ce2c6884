-- ===== src/Srpc/Call/Keeps.antt =====
-- srpc.c, `rpc_call`: every step of a call keeps the invariant of the shared state.
use mathlib.Core.Path.{subst}
use hwdb_opendpi.Prelude.{
  ℕ, take, All, ◌+◌, ◌%◌, ◌^◌, ◌≡◌, inl, inr, Bool, true, false, Option, none, some, List, [], ◌∷◌,
  length, leb, ltb, ◌==◌, get_or, if◌then◌else◌, Option-cases, Bool-cases,
}
use hwdb_opendpi.Endpoint.{ByteOrder, RpcEndpoint, sockaddr_size}
use hwdb_opendpi.Payload.{fr_size}
use hwdb_opendpi.Crecord.{
  CRecord, st_qack_sent, st_idle, st_timedout, crecord_wait_for_state, crecord_set_state,
  crecord_set_payload,
}
use hwdb_opendpi.Ctable.{ctable_lookup, store}
use hwdb_opendpi.Ctable.Invariant.{InBucket}
use hwdb_opendpi.Ctable.Lookup.{ctable_lookup-Found, home}
use hwdb_opendpi.Srpc.{Srpc, Message, data_offset}
use hwdb_opendpi.Srpc.Reader.Keeps.{IsSrpc}
use hwdb_opendpi.Srpc.Reader.Queries.{kept}
use hwdb_opendpi.Srpc.Sending.{find_self, deref, piece, last_length, send_fragment, send_last}
use hwdb_opendpi.Srpc.Call.{
  Call, Step, waits, returns, faults, Phase, waiting_in, call_next, call_start, call_reset,
  rpc_call, rpc_call_resume, call_answer, resume, woken, seqno_wait, fragment_wait, answer_wait,
  idle_or_timedout, returning_after, response_next, rpc_response, rpc_response_resume,
}

-- What every step of a call leaves behind.
pub data StepKeeps : Step → Type 0 where
  waiting :
      {ph : Phase} {p : ℕ} {s : Srpc} {out : List Message} → IsSrpc s → StepKeeps (waits ph p s out)
  returned :
      {r : Option (List ℕ)} {s : Srpc} {out : List Message} → IsSrpc s → StepKeeps (returns r s out)
  failed : StepKeeps faults

abbrev pub PauseKeeps : Option Step → Type 0
PauseKeeps none = Unit {0}
PauseKeeps (some r) = StepKeeps r

StepKeeps-if : (b : Bool) {x y : Step} → StepKeeps x → StepKeeps y → StepKeeps (if b then x else y)
StepKeeps-if true h k = h
StepKeeps-if false h k = k

module _ ⦃net : ByteOrder⦄ (a : Call) (cr : CRecord) (s : Srpc) (v : IsSrpc s)
    (whole : length cr.ep.addr ≡ sockaddr_size) where
  send_fragment-Keeps :
      (ph : Phase) (seqno fnum nfrags : ℕ)
      → StepKeeps (waiting_in ph cr.self (send_fragment a.query a.ep seqno fnum nfrags cr s))
  unfolding send_fragment crecord_set_state crecord_set_payload
  send_fragment-Keeps ph seqno fnum nfrags = elim (Option-cases (piece a.query fnum fr_size)) [
    | inl e ↦ rw (e, send_fragment) failed
    | inr (b, e) ↦ rw (e, send_fragment) (waiting (kept s _ whole v))
  ]

  send_last-Keeps :
      (ph : Phase) (to : RpcEndpoint) (cmd seqno fnum nfrags size st : ℕ)
      → StepKeeps
          (waiting_in ph cr.self (send_last a.query a.ep to cmd seqno fnum nfrags size st cr s))
  unfolding send_last crecord_set_state crecord_set_payload
  send_last-Keeps ph to cmd seqno fnum nfrags size st =
      let k = last_length (length a.query) nfrags in
      elim (Option-cases (piece a.query fnum k)) [
        | inl e ↦ rw (e, send_last) failed
        | inr (b, e) ↦ elim (Bool-cases (leb (data_offset + k) size)) [
          | inl t ↦ rw (e, send_last, t) (waiting (kept s _ whole v))
          | inr f ↦ rw (e, send_last, f) failed
        ]
      ]

  call_next-Keeps : (seqno fnum nfrags : ℕ) → StepKeeps (call_next a seqno fnum nfrags cr s)
  unfolding call_next
  call_next-Keeps seqno fnum nfrags =
      StepKeeps-if (ltb fnum nfrags) (send_fragment-Keeps _ seqno fnum nfrags)
        (send_last-Keeps _ a.ep _ seqno fnum nfrags _ _)

  call_reset-Keeps : StepKeeps (call_reset a cr s)
  unfolding call_reset crecord_set_state crecord_set_payload
  call_reset-Keeps = waiting (kept s _ whole v)

module _ ⦃net : ByteOrder⦄ (a : Call) (cr : CRecord) (s : Srpc) (v : IsSrpc s)
    (whole : length cr.ep.addr ≡ sockaddr_size) where
  call_start-Keeps : StepKeeps (call_start a cr s)
  unfolding call_start
  call_start-Keeps =
      call_next-Keeps a (record cr { seqno = (cr.seqno + 1) % 2 ^ 64 }) s v whole _ _ _

  call_answer-Keeps : StepKeeps (call_answer a cr s)
  unfolding call_answer
  call_answer-Keeps = elim (Option-cases cr.resp) [
    | inl e ↦ rw (e, call_answer) (StepKeeps-if _ failed (returned w))
    | inr (buf, e) ↦
        rw (e, call_answer)
          (StepKeeps-if (cr.state == st_idle)
            (StepKeeps-if (ltb buf.size data_offset) failed (
              StepKeeps-if (leb (net.ntohs buf.dhdr.tlen) a.rsize)
                (StepKeeps-if (leb (net.ntohs buf.dhdr.tlen) (length buf.bytes))
                  (returned {r = some (take (net.ntohs buf.dhdr.tlen) buf.bytes)} {out = []} w)
                  failed)
                (returned {r = none} {out = []} w)))
            (returned {r = none} {out = []} w))
  ]
    where
      w : IsSrpc (record s { ctable = store (record cr { resp = none }) s.ctable })
      w = kept s (record cr { resp = none }) whole v

  woken-Keeps : (o : Option ℕ) (k : Step) → StepKeeps k → PauseKeeps (woken o s k)
  woken-Keeps none k h = tt
  woken-Keeps (some st) k h = StepKeeps-if (st == st_timedout) (returned v) h

  resume-Keeps : (ph : Phase) → PauseKeeps (resume a ph cr s)
  unfolding resume
  resume-Keeps seqno_wait = woken-Keeps _ _ call_start-Keeps
  resume-Keeps (fragment_wait seqno fnum nfrags) =
      woken-Keeps _ _ (call_next-Keeps a cr s v whole seqno (fnum + 1) nfrags)
  resume-Keeps answer_wait = elim (Option-cases (crecord_wait_for_state cr idle_or_timedout)) [
    | inl n ↦ rw (n, resume) tt
    | inr (st, n) ↦ rw (n, resume) call_answer-Keeps
  ]

some_inj : (x y : CRecord) → some x ≡ some y → x ≡ y
some_inj x y e = cc

-- The pointer of a waiting call leads to a record of the table, or to none.
pub find_self-All :
    (P : CRecord → Type 0) (p : ℕ) (rs : List CRecord) (cr : CRecord)
    → All P rs
    → find_self p rs ≡ some cr
    → P cr
unfolding find_self
find_self-All P p [] cr h e = cc
find_self-All P p (r ∷ rs) cr h e = elim (Bool-cases (p == r.self)) [
  | inl t ↦ subst P (some_inj r cr (rw t at e)) h.0
  | inr f ↦ find_self-All P p rs cr h.1 (rw f at e)
]

find_self-Whole :
    (brk i p : ℕ) (rs : List CRecord) (cr : CRecord)
    → All (InBucket brk i) rs
    → find_self p rs ≡ some cr
    → length cr.ep.addr ≡ sockaddr_size
find_self-Whole brk i p rs cr h e = (find_self-All (InBucket brk i) p rs cr h e).whole

pub rpc_call_resume-Keeps :
    ⦃net : ByteOrder⦄ (a : Call) (ph : Phase) (p : ℕ) (s : Srpc)
    → IsSrpc s
    → PauseKeeps (rpc_call_resume a ph p s)
unfolding rpc_call_resume deref
rpc_call_resume-Keeps a ph p s v = elim (Option-cases (deref s.ctable a.ep p)) [
  | inl e ↦ rw (e, rpc_call_resume) failed
  | inr (cr, e) ↦
      rw (e, rpc_call_resume)
        (resume-Keeps a cr s v
          (find_self-Whole s.brk (home a.ep) p (get_or s.ctable (home a.ep) []) cr
            (v.table.placed (home a.ep)) e)
          ph)
]

pub rpc_call-Keeps :
    ⦃net : ByteOrder⦄ (a : Call) (s : Srpc)
    → IsSrpc s
    → length a.ep.addr ≡ sockaddr_size
    → StepKeeps (rpc_call a s)
unfolding rpc_call
rpc_call-Keeps a s v whole = elim (Option-cases (ctable_lookup s.ctable a.ep)) [
  | inl e ↦ rw (e, rpc_call) (returned v)
  | inr (cr, e) ↦
      let w = (ctable_lookup-Found s.brk s.ctable v.table a.ep whole cr e).0.whole in
      rw (e, rpc_call)
        (StepKeeps-if _ (StepKeeps-if _ (call_reset-Keeps a cr s v w) (call_start-Keeps a cr s v w))
          (returned v))
]

module _ ⦃net : ByteOrder⦄ (ep : RpcEndpoint) (message : List ℕ) (s : Srpc) (v : IsSrpc s) where
  -- rpc_response sends its pieces as rpc_call does.
  abbrev as_call : Call
  as_call = record { ep = ep; query = message; rsize = 0 }

  ended :
      (ph : Phase) (p : ℕ) (o : Option (Srpc × Message))
      → StepKeeps (waiting_in ph p o)
      → StepKeeps (returning_after o)
  ended ph p none h = failed
  ended ph p (some (t, m)) (waiting w) = returned w

  response_next-Keeps :
      (cr : CRecord) (fnum nfrags : ℕ)
      → length cr.ep.addr ≡ sockaddr_size
      → StepKeeps (response_next ep message fnum nfrags cr s)
  unfolding response_next
  response_next-Keeps cr fnum nfrags whole =
      StepKeeps-if (ltb fnum nfrags)
        (send_fragment-Keeps as_call cr s v whole _ cr.seqno fnum nfrags)
        (ended seqno_wait cr.self _
          (send_last-Keeps as_call cr s v whole seqno_wait cr.ep _ cr.seqno fnum nfrags _ _))

  pub rpc_response-Keeps : length ep.addr ≡ sockaddr_size → StepKeeps (rpc_response ep message s)
  unfolding rpc_response
  rpc_response-Keeps whole = elim (Option-cases (ctable_lookup s.ctable ep)) [
    | inl e ↦ rw (e, rpc_response) (returned v)
    | inr (cr, e) ↦
        let w = (ctable_lookup-Found s.brk s.ctable v.table ep whole cr e).0.whole in
        rw (e, rpc_response)
          (StepKeeps-if (cr.state == st_qack_sent) (response_next-Keeps cr _ _ w) (returned v))
  ]

  pub rpc_response_resume-Keeps :
      (fnum nfrags p : ℕ) → PauseKeeps (rpc_response_resume ep message fnum nfrags p s)
  unfolding rpc_response_resume deref
  rpc_response_resume-Keeps fnum nfrags p = elim (Option-cases (deref s.ctable ep p)) [
    | inl e ↦ rw (e, rpc_response_resume) failed
    | inr (cr, e) ↦
        rw (e, rpc_response_resume)
          (woken-Keeps as_call cr s v
            (find_self-Whole s.brk (home ep) p (get_or s.ctable (home ep) []) cr
              (v.table.placed (home ep)) e)
            _ _
            (response_next-Keeps cr (fnum + 1) nfrags (
              find_self-Whole s.brk (home ep) p (get_or s.ctable (home ep) []) cr
                (v.table.placed (home ep)) e)))
  ]
