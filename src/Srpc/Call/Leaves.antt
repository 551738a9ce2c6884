-- ===== src/Srpc/Call/Leaves.antt =====
-- srpc.c: what the steps of a message that is sent in pieces, and those of rpc_response, leave of
-- the records' properties.
use hwdb_opendpi.Prelude.{
  ℕ, ◌+◌, ◌≡◌, refl, Bool, true, false, Option, none, some, List, [], length, get_or, ◌==◌, ltb,
  leb, if◌then◌else◌, Bool-cases, Option-cases, inl, inr,
}
use hwdb_opendpi.Endpoint.{ByteOrder, RpcEndpoint}
use hwdb_opendpi.Payload.{fr_size}
use hwdb_opendpi.Crecord.{
  CRecord, crecord_set_state, crecord_set_payload, st_fragment_sent, st_response_sent, st_timedout,
  st_qack_sent, crecord_wait_for_state,
}
use hwdb_opendpi.Ctable.{ctable_size, ctable_lookup}
use hwdb_opendpi.Ctable.Holds.{Holds, Holds-store, Holds-ctable_lookup}
use hwdb_opendpi.Ctable.Lookup.{home}
use hwdb_opendpi.Srpc.{Srpc, Message, data_offset}
use hwdb_opendpi.Srpc.Sending.{deref, piece, last_length, send_fragment, send_last}
use hwdb_opendpi.Srpc.Call.{
  Step, waits, returns, faults, Phase, waiting_in, returning_after, woken, fack_or_timedout,
  response_next, rpc_response, rpc_response_resume,
}
use hwdb_opendpi.Srpc.Call.Keeps.{find_self-All}

-- A record as a piece of a message is sent: it goes to the state `st`.
pub record Sent (st : ℕ) (c c' : CRecord) : Type 0 where
  pub self : c'.self ≡ c.self
  pub ep : c'.ep ≡ c.ep
  pub seqno : c'.seqno ≡ c.seqno
  pub state : c'.state ≡ st
  pub svc : c'.svc ≡ c.svc

-- A property that the records keep.
module _ (P : CRecord → Type 0) where
  -- What a step leaves in the table.
  abbrev pub Sends : Option (Srpc × Message) → Type 0
  Sends none = Unit {0}
  Sends (some (t, m)) = Holds P t.ctable

  abbrev pub Leaves : Step → Type 0
  Leaves (waits ph q t out) = Holds P t.ctable
  Leaves (returns b t out) = Holds P t.ctable
  Leaves faults = Unit {0}

  abbrev pub Resumes : Option Step → Type 0
  Resumes none = Unit {0}
  Resumes (some x) = Leaves x

  pub Leaves-if : (b : Bool) (x y : Step) → Leaves x → Leaves y → Leaves (if b then x else y)
  Leaves-if true x y h k = h
  Leaves-if false x y h k = k

  module _ ⦃net : ByteOrder⦄ where
    pub waiting :
        (ph : Phase) (q : ℕ) (o : Option (Srpc × Message)) → Sends o → Leaves (waiting_in ph q o)
    waiting ph q none h = tt
    waiting ph q (some (t, m)) h = h

    returning : (o : Option (Srpc × Message)) → Sends o → Leaves (returning_after o)
    returning none h = tt
    returning (some (t, m)) h = h

  module _ ⦃net : ByteOrder⦄ (message : List ℕ) (to : RpcEndpoint) (cr : CRecord) (s : Srpc)
      (wide : length s.ctable ≡ ctable_size) (h : Holds P s.ctable) where
    pub send_fragment-Sends :
        (seqno fnum nfrags : ℕ)
        → ((c' : CRecord) → Sent st_fragment_sent cr c' → P c')
        → Sends (send_fragment message to seqno fnum nfrags cr s)
    unfolding send_fragment crecord_set_state crecord_set_payload
    send_fragment-Sends seqno fnum nfrags goes = elim (Option-cases (piece message fnum fr_size)) [
      | inl e ↦ rw (e, send_fragment) tt
      | inr (b, e) ↦
          rw (e, send_fragment)
            (Holds-store P s.ctable wide h _
              (goes _ (record { self = refl; ep = refl; seqno = refl; state = refl; svc = refl })))
    ]

    pub send_last-Sends :
        (dest : RpcEndpoint) (cmd seqno fnum nfrags size st : ℕ)
        → ((c' : CRecord) → Sent st cr c' → P c')
        → Sends (send_last message to dest cmd seqno fnum nfrags size st cr s)
    unfolding send_last crecord_set_state crecord_set_payload
    send_last-Sends dest cmd seqno fnum nfrags size st goes =
        let k = last_length (length message) nfrags in
        elim (Option-cases (piece message fnum k)) [
          | inl e ↦ rw (e, send_last) tt
          | inr (b, e) ↦ elim (Bool-cases (leb (data_offset + k) size)) [
            | inl t ↦
                rw (e, send_last, t)
                  (Holds-store P s.ctable wide h _ (
                    goes _
                      (record { self = refl; ep = refl; seqno = refl; state = refl; svc = refl })))
            | inr f ↦ rw (e, send_last, f) tt
          ]
        ]

    pub woken-Resumes : (o : Option ℕ) (x : Step) → Leaves x → Resumes (woken o s x)
    woken-Resumes none x k = tt
    woken-Resumes (some st) x k = Leaves-if (st == st_timedout) _ x h k

  -- A property that sending an answer keeps.
  module _ ⦃net : ByteOrder⦄ (fragment : (c c' : CRecord) → Sent st_fragment_sent c c' → P c → P c')
      (response : (c c' : CRecord) → Sent st_response_sent c c' → P c → P c') (to : RpcEndpoint)
      (message : List ℕ) (s : Srpc) (wide : length s.ctable ≡ ctable_size)
      (h : Holds P s.ctable) where
    response_next-Leaves :
        (cr : CRecord) (fnum nfrags : ℕ) → P cr → Leaves (response_next to message fnum nfrags cr s)
    unfolding response_next
    response_next-Leaves cr fnum nfrags g =
        Leaves-if (ltb fnum nfrags) _ _
          (waiting _ cr.self _ (
            send_fragment-Sends message to cr s wide h cr.seqno fnum nfrags
              (λ c' sent. fragment cr c' sent g)))
          (returning _ (
            send_last-Sends message to cr s wide h cr.ep _ cr.seqno fnum nfrags _ st_response_sent
              (λ c' sent. response cr c' sent g)))

    pub rpc_response-Leaves : Leaves (rpc_response to message s)
    unfolding rpc_response
    rpc_response-Leaves = elim (Option-cases (ctable_lookup s.ctable to)) [
      | inl e ↦ rw (e, rpc_response) h
      | inr (cr, e) ↦
          let g = Holds-ctable_lookup P s.ctable wide h to cr e in
          rw (e, rpc_response)
            (Leaves-if (cr.state == st_qack_sent) _ _ (response_next-Leaves cr _ _ g) h)
    ]

    pub rpc_response_resume-Resumes :
        (fnum nfrags q : ℕ) → Resumes (rpc_response_resume to message fnum nfrags q s)
    unfolding rpc_response_resume deref
    rpc_response_resume-Resumes fnum nfrags q = elim (Option-cases (deref s.ctable to q)) [
      | inl e ↦ rw (e, rpc_response_resume) tt
      | inr (cr, e) ↦
          let g = find_self-All P q (get_or s.ctable (home to) []) cr (h (home to)) e in
          rw (e, rpc_response_resume)
            (woken-Resumes message to cr s wide h (crecord_wait_for_state cr fack_or_timedout) _
              (response_next-Leaves cr (fnum + 1) nfrags g))
    ]
