-- ===== src/Srpc/Reader/Effects/Switch.antt =====
-- srpc.c, `reader`: what FRAGMENT does to the sender's record, and the switch as a whole.
use hwdb_opendpi.Prelude.{
  ℕ, ◌+◌, ◌*◌, ◌^◌, ◌≤◌, ◌<◌, ◌≡◌, ◌≢◌, refl, true, ◌&&◌, ◌||◌, Option, none, some, arith, ◌==◌,
  leb, ltb,
}
use hwdb_opendpi.Endpoint.{ByteOrder}
use hwdb_opendpi.Payload.{DataPayload, cmd_low, cmd_high}
use hwdb_opendpi.Crecord.{
  CRecord, crecord_set_state, crecord_set_payload, st_idle, st_response_sent, st_query_sent,
  st_awaiting_response, st_timedout, st_fack_sent,
}
use hwdb_opendpi.Ctable.{ctable_lookup}
use hwdb_opendpi.Srpc.{Srpc, is_next, first_fragment}
use hwdb_opendpi.Srpc.Reader.{
  Arrival, on_ack, on_query, on_response, on_disconnect, accept_fragment, start_fragments,
  next_fragment, on_fragment, on_fack, on_ping, on_pack, on_seqno, on_sack, dispatch, Datagram,
  arrival, reader, buf_size,
}
use hwdb_opendpi.Srpc.Reader.Cases.{dispatch_cases}
use hwdb_opendpi.Srpc.Reader.Effects.{
  rank, IsServing, IsCalm, Effect, faults, nothing, Effect-if, reply-Effect, stays, on_ack-Effect,
  on_disconnect-Effect, on_fack-Effect, on_sack-Effect, on_pack-Effect, on_seqno-Effect,
}
use hwdb_opendpi.Srpc.Reader.Effects.Messages.{
  is_next_lem, Effect-option, patched, on_connect-Effect, on_query-Effect, on_response-Effect,
}

some-ne : (p : DataPayload) → some p ≢ none
some-ne p e = cc

module _ ⦃net : ByteOrder⦄ (cmd : ℕ) (a : Arrival) (c : CRecord) (s : Srpc)
    (small : a.seqno < 2 ^ 32) where
  -- The record waits for the rest of the message `a`.
  accept_fragment-Effect :
      (c' : CRecord)
      → c'.self ≡ c.self
      → c'.ep ≡ c.ep
      → c'.seqno ≡ a.seqno
      → (IsServing c → IsServing c')
      → c'.resp ≢ none
      → (IsCalm c → rank c ≤ 2 * a.seqno)
      → Effect cmd a s (some c) (accept_fragment a c' s)
  unfolding accept_fragment crecord_set_state crecord_set_payload
  accept_fragment-Effect c' self ep seqno serving held low = reply-Effect cmd a c s _ _ _ (record {
    serving = serving;
    self = self;
    ep = ep;
    sound = λ _ _. held;
    goes = λ o v. (
      record {
        not_sent = omega arith;
        not_awaiting = omega arith;
        small = omega (arith, small, seqno);
      },
      omega (arith, low v, seqno),
    );
  })

  on_fragment-Effect : (fill : ℕ) → Effect cmd a s (some c) (on_fragment fill a (some c) s)
  unfolding on_fragment start_fragments next_fragment
  on_fragment-Effect fill =
      Effect-if cmd a s
        ((c.state == st_idle || c.state == st_response_sent)
            && (is_next a.seqno c.seqno && a.fnum == 1)
          || (c.state == st_query_sent || c.state == st_awaiting_response)
            && (a.seqno == c.seqno && a.fnum == 1))
        (λ e. Effect-option cmd a s (first_fragment fill a.n (net.ntohs a.dp.dhdr.tlen) a.dp) (λ p.
          accept_fragment-Effect (record c { seqno = a.seqno; resp = some p }) refl refl refl
            (λ v. v) (some-ne p) (λ v. starts e v)))
        (λ _.
          Effect-if cmd a s
            (a.seqno == c.seqno && (c.state == st_fack_sent && a.fnum == c.last_frag + 1))
            (λ e. Effect-option cmd a s c.resp (λ p.
              Effect-option cmd a s (patched cmd a c s small p) (λ b.
                accept_fragment-Effect (record c { resp = some (record p { bytes = b }) }) refl refl
                  (ground arith) (λ v. v) (some-ne (record p { bytes = b })) (λ v. ground arith))))
            (λ _.
              Effect-if cmd a s
                (a.seqno == c.seqno && (c.state == st_fack_sent && a.fnum == c.last_frag))
                (λ _. stays cmd a c s _) (λ _. nothing)))
    where
      starts :
          (c.state == st_idle || c.state == st_response_sent)
                && (is_next a.seqno c.seqno && a.fnum == 1)
              || (c.state == st_query_sent || c.state == st_awaiting_response)
                && (a.seqno == c.seqno && a.fnum == 1)
            ≡ true
          → IsCalm c
          → rank c ≤ 2 * a.seqno
      starts e v =
          let f1 : c.state ≢ st_query_sent = v.not_sent in
          let f2 : c.state ≢ st_awaiting_response = v.not_awaiting in
          let f : is_next a.seqno c.seqno ≡ true = ground arith in
          let g : a.seqno ≡ c.seqno + 1 = is_next_lem a.seqno c.seqno small v.small f in
          ground arith

module _ ⦃net : ByteOrder⦄ where
  -- Every case of the switch, for a known and for an unknown sender.
  pub dispatch-Effect :
      (fill cmd : ℕ) (a : Arrival) (cr : Option CRecord) (s : Srpc)
      → a.seqno < 2 ^ 32
      → Effect cmd a s cr (dispatch fill cmd a cr s)
  unfolding on_ack on_query on_response on_disconnect on_fragment on_fack on_ping on_pack on_seqno
      on_sack
  dispatch-Effect fill cmd a none s small =
      dispatch_cases (Effect cmd a s none) fill cmd a none s (λ e. on_connect-Effect cmd a none s e)
        (λ _. nothing) (λ _. nothing) (λ _. nothing) (λ _. nothing) (λ _. nothing) (λ _. nothing)
        (λ _. nothing) (λ _. nothing) (λ _. nothing) (λ _. nothing) (λ _. nothing) (λ _. nothing)
        (λ _. nothing) nothing
  dispatch-Effect fill cmd a (some c) s small =
      dispatch_cases (Effect cmd a s (some c)) fill cmd a (some c) s
        (λ e. on_connect-Effect cmd a (some c) s e)
        (λ e. on_ack-Effect cmd a c s st_idle (omega arith) (λ o. (omega arith, omega arith)))
        (λ e. on_query-Effect cmd a c s small (omega arith, omega arith))
        (λ e. on_ack-Effect cmd a c s st_awaiting_response (omega arith) (λ o. absurd (o.0 e)))
        (λ e. on_response-Effect cmd a c s small)
        (λ e. on_ack-Effect cmd a c s st_idle (omega arith) (λ o. (omega arith, omega arith)))
        (λ e. on_disconnect-Effect cmd a c s)
        (λ e. on_ack-Effect cmd a c s st_timedout (omega arith) (λ o. (omega arith, omega arith)))
        (λ e. on_fragment-Effect cmd a c s small fill) (λ e. on_fack-Effect cmd a c s)
        (λ _. nothing) (λ e. on_pack-Effect cmd a c s) (λ e. on_seqno-Effect cmd a c s e)
        (λ e. on_sack-Effect cmd a c s) nothing

  pub reader-Effect :
      (fill : ℕ) (d : Datagram) (s : Srpc)
      → Effect
          (net.ntohs d.payload.hdr.command)
          (arrival d)
          s
          (ctable_lookup s.ctable (arrival d).ep)
          (reader fill (some d) s)
  unfolding reader
  reader-Effect fill d s =
      Effect-if _ _ s (ltb d.n buf_size)
        (λ _.
          Effect-if _ _ s
            (leb cmd_low (net.ntohs d.payload.hdr.command)
              && leb (net.ntohs d.payload.hdr.command) cmd_high)
            (λ _. dispatch-Effect fill _ (arrival d) _ s (net.ntohl-lt d.payload.hdr.seqno))
            (λ _. nothing))
        (λ _. faults)
