-- ===== src/Srpc/Call/Resumes.antt =====
-- srpc.c: how the reader wakes a call that waits.
use mathlib.Core.Path.{subst}
use hwdb_opendpi.Prelude.{
  false, ℕ, ◌+◌, ◌-◌, ◌<◌, ◌≤◌, ◌≡◌, refl, sym, ap, ◌∙◌, ◌⊎◌, inl, inr, true, none, some, List, [],
  ◌∷◌, arith, ltb, leb, length, length-take, take, take-take_self, ==_of_eq, ==_of_ne, leb_of_le,
}
use hwdb_opendpi.Endpoint.{ByteOrder, RpcEndpoint, sockaddr_size}
use hwdb_opendpi.Payload.{cp_size, cmd_fack, cmd_rack, cmd_response, attempts, ticks}
use hwdb_opendpi.Crecord.{
  CRecord, crecord_set_state, crecord_set_payload, crecord_wait_for_state, matched_state, st_idle,
  st_query_sent, st_awaiting_response, st_fragment_sent, st_fack_received,
}
use hwdb_opendpi.Ctable.{ctable_lookup, store, find}
use hwdb_opendpi.Ctable.Invariant.{Distinct}
use hwdb_opendpi.Ctable.Lookup.{ctable_lookup-Found, find_cases, Absent-find, home}
use hwdb_opendpi.Srpc.{Srpc, ok, update, data_offset, copied}
use hwdb_opendpi.Srpc.Sending.{deref, find_self}
use hwdb_opendpi.Srpc.Reader.{
  Datagram, arrival, buf_size, ctl, reply, on_fack, on_response, dispatch, reader,
}
use hwdb_opendpi.Srpc.Reader.Keeps.{IsSrpc}
use hwdb_opendpi.Srpc.Reader.Queries.{lookup_stored, kept}
use hwdb_opendpi.Srpc.Call.{
  Call, returns, fragment_wait, answer_wait, call_next, call_answer, resume, rpc_call_resume,
}

find_self-find :
    (ep : RpcEndpoint) (cr : CRecord) (rs : List CRecord)
    → length ep.addr ≡ sockaddr_size
    → Distinct rs
    → find ep rs ≡ some cr
    → find_self cr.self rs ≡ some cr
unfolding find_self find
find_self-find ep cr [] whole d e = cc
find_self-find ep cr (r ∷ rs) whole d e = elim (find_cases ep whole cr r rs e) [
  | inl (same, is) ↦ rw (==_of_eq cr.self r.self (sym (ap (λ x. x.self) is))) (ap some is)
  | inr (differ, rest) ↦
      rw (==_of_ne cr.self r.self (λ h. Absent-find ep whole cr r.self rs d.0 rest (sym h)))
        (find_self-find ep cr rs whole d.1 rest)
]

-- The pointer that a lookup gave still leads to the record.
deref-ctable_lookup :
    (s : Srpc) (ep : RpcEndpoint) (cr : CRecord)
    → IsSrpc s
    → length ep.addr ≡ sockaddr_size
    → ctable_lookup s.ctable ep ≡ some cr
    → deref s.ctable ep cr.self ≡ some cr
unfolding deref ctable_lookup
deref-ctable_lookup s ep cr v whole found =
    find_self-find ep cr _ whole (v.table.distinct (home ep)) found

pub deref-store :
    (s : Srpc) (ep : RpcEndpoint) (c c' : CRecord)
    → IsSrpc s
    → length ep.addr ≡ sockaddr_size
    → ctable_lookup s.ctable ep ≡ some c
    → c'.self ≡ c.self
    → c'.ep ≡ c.ep
    → deref (store c' s.ctable) ep c.self ≡ some c'
deref-store s ep c c' v whole found self key =
    let w = ctable_lookup-Found s.brk s.ctable v.table ep whole c found in
    let whole' : length c'.ep.addr ≡ sockaddr_size = rw key w.0.whole in
    let s' : Srpc = record s { ctable = store c' s.ctable } in
    subst (λ p. deref (store c' s.ctable) ep p ≡ some c') self
      (deref-ctable_lookup s' ep c' (kept s c' whole' v) whole
        (lookup_stored s ep c c' v whole found self key))

module _ ⦃net : ByteOrder⦄ (fill : ℕ) (d : Datagram) (a : Call) (c : CRecord) (s : Srpc)
    (v : IsSrpc s) (whole : length a.ep.addr ≡ sockaddr_size)
    (mine : ctable_lookup s.ctable a.ep ≡ some c)
    (known : ctable_lookup s.ctable (arrival d).ep ≡ some c) (fits : d.n < buf_size)
    (same : (arrival d).seqno ≡ c.seqno) where
  abbrev acked : CRecord
  acked = crecord_set_state c st_fack_received

  reader-fack :
      net.ntohs d.payload.hdr.command ≡ cmd_fack
      → c.state ≡ st_fragment_sent
      → d.payload.hdr.fnum ≡ c.last_frag
      → reader fill (some d) s ≡ ok (record s { ctable = store acked s.ctable }) []
  unfolding reader dispatch on_fack update
  reader-fack command state num =
      let e : ltb d.n buf_size ≡ true = ground arith in
      rw
        (
          e,
          command,
          known,
          on_fack,
          ==_of_eq (arrival d).seqno c.seqno same,
          ==_of_eq c.state 9 state,
          ==_of_eq d.payload.hdr.fnum c.last_frag num,
        )
        refl

  -- In a well-formed state, where the caller's endpoint and the datagram's both look up the
  -- record: a call that waits for the FACK of its fragment `fnum` goes on with the next piece
  -- once a FACK that fits the buffer arrives, of that number and the record's sequence number.
  -- The reader sends nothing.
  pub fack_resumes :
      (seqno fnum nfrags : ℕ)
      → net.ntohs d.payload.hdr.command ≡ cmd_fack
      → c.state ≡ st_fragment_sent
      → d.payload.hdr.fnum ≡ fnum
      → c.last_frag ≡ fnum
      → (s' : Srpc) × (reader fill (some d) s ≡ ok s' [])
        × (rpc_call_resume a (fragment_wait seqno fnum nfrags) c.self s'
            ≡ some (call_next a seqno (fnum + 1) nfrags (crecord_set_state c st_fack_received) s'))
  unfolding rpc_call_resume resume crecord_wait_for_state matched_state crecord_set_state
  fack_resumes seqno fnum nfrags command state num last = (
    record s { ctable = store acked s.ctable },
    reader-fack command state (num ∙ sym last),
    rw (deref-store s a.ep c acked v whole mine refl refl, rpc_call_resume) refl,
  )

  abbrev answered : CRecord
  answered =
      crecord_set_state
        (crecord_set_payload (record c { resp = some (copied d.n d.payload) })
          (ctl (arrival d).ep cmd_rack (arrival d)) cp_size attempts ticks)
        st_idle

  reader-response :
      net.ntohs d.payload.hdr.command ≡ cmd_response
      → (c.state ≡ st_query_sent) ⊎ (c.state ≡ st_awaiting_response)
      → reader fill (some d) s
        ≡ ok
            (record s { ctable = store answered s.ctable })
            (record {
              to = c.ep;
              packet = some (ctl (arrival d).ep cmd_rack (arrival d));
              size = cp_size;
            }
              ∷ [])
  unfolding reader dispatch on_response reply update
  reader-response command state =
      let e : ltb d.n buf_size ≡ true = ground arith in
      let n = ==_of_eq (arrival d).seqno c.seqno same in
      elim state [
        | inl q ↦ rw (e, command, known, on_response, n, ==_of_eq c.state 5 q) refl
        | inr w ↦
            rw
              (
                e,
                command,
                known,
                on_response,
                n,
                ==_of_ne c.state 5 (omega arith),
                ==_of_eq c.state 6 w,
              )
              refl
      ]

  call_answer-copied :
      (len : ℕ) (r : CRecord) (t : Srpc)
      → r.state ≡ st_idle
      → r.resp ≡ some (copied d.n d.payload)
      → net.ntohs d.payload.dhdr.tlen ≡ len
      → d.n ≡ data_offset + len
      → len ≤ length d.payload.bytes
      → len ≤ a.rsize
      → call_answer a r t
        ≡ returns
            (some (take len d.payload.bytes))
            (record t { ctable = store (record r { resp = none }) t.ctable })
            []
  unfolding call_answer copied
  call_answer-copied len r t idle resp tlen n long room =
      let k : d.n - data_offset ≡ len = omega (arith, n) in
      let fit : leb len (length (take len d.payload.bytes)) ≡ true =
        leb_of_le _ _ (omega (arith, length-take len d.payload.bytes)) in
      let headed : ltb d.n data_offset ≡ false = ground arith in
      rw (==_of_eq r.state 1 idle, resp, call_answer)
        (rw (tlen, k, headed, leb_of_le len a.rsize room, fit, take-take_self len d.payload.bytes)
          refl)

  -- In a well-formed state, where the caller's endpoint and the datagram's both look up the
  -- record: a call that waits for its answer returns the bytes of an unfragmented RESPONSE of the
  -- record's sequence number, whose length is as it states and which fits the buffer and the
  -- caller's block. The reader acknowledges it first.
  pub response_returns :
      (len : ℕ)
      → net.ntohs d.payload.hdr.command ≡ cmd_response
      → (c.state ≡ st_query_sent) ⊎ (c.state ≡ st_awaiting_response)
      → net.ntohs d.payload.dhdr.tlen ≡ len
      → d.n ≡ data_offset + len
      → len ≤ length d.payload.bytes
      → len ≤ a.rsize
      → (s' : Srpc) × (reader fill (some d) s
          ≡ ok s' (
              record {
                to = c.ep;
                packet = some (ctl (arrival d).ep cmd_rack (arrival d));
                size = cp_size;
              }
              ∷ []))
        × (s'' : Srpc) × (rpc_call_resume a answer_wait c.self s'
            ≡ some (returns (some (take len d.payload.bytes)) s'' []))
  unfolding rpc_call_resume resume crecord_wait_for_state matched_state crecord_set_state
      crecord_set_payload
  response_returns len command state tlen n long room = (
    record s { ctable = store answered s.ctable },
    reader-response command state,
    record s { ctable = store (record answered { resp = none }) (store answered s.ctable) },
    rw (deref-store s a.ep c answered v whole mine refl refl, rpc_call_resume)
        (ap some (
          call_answer-copied len answered (record s { ctable = store answered s.ctable }) refl refl
            tlen n long room)),
  )
