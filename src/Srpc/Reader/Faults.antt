-- ===== src/Srpc/Reader/Faults.antt =====
-- srpc.c, `reader`: which datagrams make the reader leave its objects.
use hwdb_opendpi.Prelude.{
  ℕ, ◌+◌, ◌<◌, ◌≡◌, ◌≢◌, ◌↔◌, ◌⊎◌, inl, inr, Bool, true, false, Option, none, some, List, arith,
  length, ltb, if◌then◌else◌, ==_of_eq, Option-cases,
}
use hwdb_opendpi.Endpoint.{ByteOrder}
use hwdb_opendpi.Payload.{cmd_connect, cmd_query, cmd_response, cmd_fragment, DataPayload}
use hwdb_opendpi.Crecord.{CRecord, st_idle}
use hwdb_opendpi.Ctable.{ctable_lookup}
use hwdb_opendpi.Srpc.{
  Srpc, Message, Result, ok, fault, data_offset, first_fragment, memcpy_at, is_next, update,
}
use hwdb_opendpi.Srpc.Reader.{
  Arrival, Datagram, arrival, buf_size, reply, start_fragments, accept_fragment, on_ack,
  on_fragment, on_disconnect, on_fack, on_ping, on_pack, on_seqno, on_sack, dispatch, reader,
}
use hwdb_opendpi.Srpc.Reader.Cases.{dispatch_cases}

-- `memcpy` faults exactly when it would read or write past the end of an object.
memcpy_at_lem :
    (dst : List ℕ) (off : ℕ) (src : List ℕ) (k : ℕ)
    → (memcpy_at dst off src k ≡ none) ↔ ((length dst < off + k) ⊎ (length src < k))
unfolding memcpy_at
memcpy_at_lem dst off src k = (λ h. ground arith, λ h. ground arith)

first_fragment_lem :
    (fill n tlen : ℕ) (dp : DataPayload)
    → (first_fragment fill n tlen dp ≡ none) ↔ (data_offset + tlen < n)
unfolding first_fragment
first_fragment_lem fill n tlen dp = (λ h. ground arith, λ h. ground arith)

some-ne : {A : Type 0} (o : Option A) (x : A) → o ≡ some x → o ≢ none
some-ne o x e h = cc

ne_if : (b : Bool) {x y : Result} → x ≢ fault → y ≢ fault → (if b then x else y) ≢ fault
ne_if true h k = h
ne_if false h k = k

module _ ⦃net : ByteOrder⦄ where
  ok-ne : (s : Srpc) (out : List Message) → ok s out ≢ fault
  ok-ne s out h = cc

  -- The first fragment of a message is copied past the end of its block exactly when the datagram
  -- is longer than the total length that its own header states.
  start_fragments_overflow :
      (fill : ℕ) (a : Arrival) (c : CRecord) (s : Srpc)
      → (start_fragments fill a c s ≡ fault) ↔ (data_offset + net.ntohs a.dp.dhdr.tlen < a.n)
  unfolding start_fragments accept_fragment reply update
  start_fragments_overflow fill a c s =
      let law = first_fragment_lem fill a.n (net.ntohs a.dp.dhdr.tlen) a.dp in
      elim (Option-cases (first_fragment fill a.n (net.ntohs a.dp.dhdr.tlen) a.dp)) [
        | inl e ↦ (λ _. law.0 e, λ _. rw (e, start_fragments))
        | inr (p, e) ↦ (
          rw (e, start_fragments) (λ h. absurd (ok-ne _ _ h)),
          λ h. absurd (some-ne _ p e (law.1 h)),
        )
      ]

  on_fragment-first :
      (fill : ℕ) (a : Arrival) (c : CRecord) (s : Srpc)
      → c.state ≡ st_idle
      → is_next a.seqno c.seqno ≡ true
      → a.fnum ≡ 1
      → on_fragment fill a (some c) s ≡ start_fragments fill a c s
  unfolding on_fragment
  on_fragment-first fill a c s idle next one =
      rw (==_of_eq c.state st_idle idle, next, ==_of_eq a.fnum 1 one)

  reader-fragment :
      (fill : ℕ) (d : Datagram) (s : Srpc)
      → d.n < buf_size
      → net.ntohs d.payload.hdr.command ≡ cmd_fragment
      → reader fill (some d) s
        ≡ on_fragment fill (arrival d) (ctable_lookup s.ctable (arrival d).ep) s
  unfolding reader dispatch
  reader-fragment fill d s fits command =
      let e : ltb d.n buf_size ≡ true = ground arith in rw (e, command)

  -- On an idle connection the first fragment of the next message overflows the block that is
  -- allocated for it exactly when the datagram is longer than its header's total length allows:
  -- the length of the datagram is not checked.
  pub fragment_overflow :
      (fill : ℕ) (d : Datagram) (c : CRecord) (s : Srpc)
      → d.n < buf_size
      → net.ntohs d.payload.hdr.command ≡ cmd_fragment
      → ctable_lookup s.ctable (arrival d).ep ≡ some c
      → c.state ≡ st_idle
      → is_next (arrival d).seqno c.seqno ≡ true
      → d.payload.hdr.fnum ≡ 1
      → (reader fill (some d) s ≡ fault) ↔ (data_offset + net.ntohs d.payload.dhdr.tlen < d.n)
  fragment_overflow fill d c s fits command found idle next one =
      rw
        (
          reader-fragment fill d s fits command,
          found,
          on_fragment-first fill (arrival d) c s idle next one,
        )
        (start_fragments_overflow fill (arrival d) c s)

  module _ (fill : ℕ) (cmd : ℕ) (a : Arrival) (s : Srpc) (c1 : cmd ≢ cmd_connect)
      (c2 : cmd ≢ cmd_query) (c3 : cmd ≢ cmd_response) (c4 : cmd ≢ cmd_fragment) where
    control_dispatch : (cr : Option CRecord) → dispatch fill cmd a cr s ≢ fault
    unfolding on_ack on_disconnect on_fack on_ping on_pack on_seqno on_sack reply update
    control_dispatch none =
        dispatch_cases (λ r. r ≢ fault) fill cmd a none s (λ e. absurd (c1 e)) (λ _. ok-ne _ _)
          (λ e. absurd (c2 e)) (λ _. ok-ne _ _) (λ e. absurd (c3 e)) (λ _. ok-ne _ _)
          (λ _. ok-ne _ _) (λ _. ok-ne _ _) (λ e. absurd (c4 e)) (λ _. ok-ne _ _) (λ _. ok-ne _ _)
          (λ _. ok-ne _ _) (λ _. ok-ne _ _) (λ _. ok-ne _ _) (ok-ne _ _)
    control_dispatch (some c) =
        dispatch_cases (λ r. r ≢ fault) fill cmd a (some c) s (λ e. absurd (c1 e))
          (λ _. ne_if _ (ok-ne _ _) (ok-ne _ _)) (λ e. absurd (c2 e))
          (λ _. ne_if _ (ok-ne _ _) (ok-ne _ _)) (λ e. absurd (c3 e))
          (λ _. ne_if _ (ok-ne _ _) (ok-ne _ _)) (λ _. ok-ne _ _)
          (λ _. ne_if _ (ok-ne _ _) (ok-ne _ _)) (λ e. absurd (c4 e))
          (λ _. ne_if _ (ok-ne _ _) (ok-ne _ _)) (λ _. ok-ne _ _) (λ _. ok-ne _ _)
          (λ _. ne_if _ (ok-ne _ _) (ok-ne _ _)) (λ _. ne_if _ (ok-ne _ _) (ok-ne _ _)) (ok-ne _ _)

  -- A datagram that fits the buffer and is no CONNECT, QUERY, RESPONSE or FRAGMENT never makes the
  -- reader leave its objects, in any state, whatever its fields say.
  control_safe :
      (fill : ℕ) (d : Datagram) (s : Srpc)
      → d.n < buf_size
      → net.ntohs d.payload.hdr.command ≢ cmd_connect
      → net.ntohs d.payload.hdr.command ≢ cmd_query
      → net.ntohs d.payload.hdr.command ≢ cmd_response
      → net.ntohs d.payload.hdr.command ≢ cmd_fragment
      → reader fill (some d) s ≢ fault
  unfolding reader
  control_safe fill d s fits c1 c2 c3 c4 =
      let e : ltb d.n buf_size ≡ true = ground arith in
      rw e (
        ne_if _
          (control_dispatch fill _ (arrival d) s c1 c2 c3 c4
            (ctable_lookup s.ctable (arrival d).ep))
          (ok-ne _ _))
