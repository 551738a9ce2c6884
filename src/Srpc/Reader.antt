-- ===== src/Srpc/Reader.antt =====
-- srpc.c, `reader`: what the reader thread does with a datagram. One function for each case of the
-- switch, and one for each of its longer branches.
pub mod Cases
pub mod Keeps
pub mod Queries
pub mod Faults
pub mod Effects
pub mod Safe
use hwdb_opendpi.Prelude.{
  ℕ, ◌+◌, ◌-◌, ◌*◌, ◌%◌, ◌^◌, Bool, true, false, ◌&&◌, ◌||◌, Option, none, some, List, [], ◌∷◌,
  ◌++◌, ltb, leb, ◌==◌, if◌then◌else◌,
}
use hwdb_opendpi.Endpoint.{ByteOrder, SockAddr, RpcEndpoint, endpoint_complete, endpoint_duplicate}
use hwdb_opendpi.Payload.{
  Packet, control, DataPayload, cp_complete, cp_size, attempts, ticks, fr_size, cmd_low, cmd_high,
  cmd_connect, cmd_cack, cmd_query, cmd_qack, cmd_response, cmd_rack, cmd_disconnect, cmd_dack,
  cmd_fragment, cmd_fack, cmd_ping, cmd_pack, cmd_seqno, cmd_sack,
}
use hwdb_opendpi.Stable.{Name, stable_lookup}
use hwdb_opendpi.Crecord.{
  CRecord, crecord_create, crecord_set_state, crecord_set_payload, crecord_set_service, st_idle,
  st_qack_sent, st_response_sent, st_query_sent, st_awaiting_response, st_timedout,
  st_fragment_sent, st_fack_received, st_fack_sent, st_seqno_sent,
}
use hwdb_opendpi.Ctable.{ctable_lookup, ctable_insert}
use hwdb_opendpi.Srpc.{
  Request, Srpc, Message, Result, ok, fault, resend, update, memcpy_at, data_offset, copied,
  first_fragment, enqueue, is_next,
}

abbrev pub buf_size : ℕ
buf_size = 10240

-- What `recvfrom` leaves: the sender, the length and the receive buffer. `payload` is the buffer
-- read as a `DataPayload`, whose data go up to the buffer's end, and `sname` is the text that it
-- holds behind the header.
pub record Datagram : Type 0 where
  pub sender : SockAddr
  pub n : ℕ
  pub payload : DataPayload
  pub sname : Name

-- The variables that the loop's body sets before the switch.
pub record Arrival : Type 0 where
  pub ep : RpcEndpoint
  pub seqno : ℕ
  pub fnum : ℕ
  pub nfrags : ℕ
  pub n : ℕ
  pub dp : DataPayload
  pub sname : Name

module _ ⦃net : ByteOrder⦄ where
  abbrev pub ctl : RpcEndpoint → ℕ → Arrival → Packet
  ctl ep cmd a = control (cp_complete ep.subport cmd a.seqno a.fnum a.nfrags)

  abbrev pub ctl_one : RpcEndpoint → ℕ → Arrival → Packet
  ctl_one ep cmd a = control (cp_complete ep.subport cmd a.seqno 1 1)

  -- `crecord_setPayload`, `send_payload` and `crecord_setState` with a control payload.
  unfoldable pub reply : CRecord → Packet → ℕ → Srpc → Result
  reply cr p st s =
      let c = crecord_set_payload cr p cp_size attempts ticks in
      update (crecord_set_state c st) s
        (record { to = cr.ep; packet = some p; size = cp_size } ∷ [])

  unfoldable pub connect_new : Arrival → Name → Srpc → Result
  connect_new a svc s =
      let nep = endpoint_duplicate a.ep in
      elim (crecord_create s.brk nep a.seqno) [
        | none ↦ fault
        | some c ↦
            let c1 = crecord_set_payload c (ctl_one nep cmd_cack a) cp_size attempts ticks in
            let c2 = crecord_set_service c1 svc in
            ok
              (record s {
                ctable = ctable_insert (crecord_set_state c2 st_idle) s.ctable;
                brk = s.brk + 1;
              })
              (resend c2 ∷ [])
      ]

  unfoldable pub connect_old : CRecord → Name → Srpc → Result
  connect_old cr svc s =
      if cr.state == st_idle
      then (let c = crecord_set_service cr svc in
          update (crecord_set_state c st_idle) s (resend c ∷ []))
      else ok s []

  unfoldable pub on_connect : Arrival → Option CRecord → Srpc → Result
  on_connect a cr s = elim (stable_lookup s.stable a.sname) [
    | none ↦ fault
    | some sr ↦ elim sr [
      | none ↦ ok s []
      | some sv ↦ elim cr [ none ↦ connect_new a sv.s_name s | some c ↦ connect_old c sv.s_name s ]
    ]
  ]

  -- CACK, QACK, RACK and DACK: a matching sequence number moves the record to `st`.
  unfoldable pub on_ack : ℕ → Arrival → Option CRecord → Srpc → Result
  on_ack st a none s = ok s []
  on_ack st a (some c) s =
      if a.seqno == c.seqno then update (crecord_set_state c st) s [] else ok s []

  -- The branch `NEW` of a query: it is acknowledged and queued.
  unfoldable pub accept_query : Arrival → CRecord → DataPayload → ℕ → Srpc → Result
  accept_query a c p dplen s = elim c.svc [
    | none ↦ fault
    | some svc ↦ elim (enqueue svc (record { sender = c.ep; packet = p; size = dplen }) s.stable) [
      | none ↦ fault
      | some st ↦ reply c (ctl a.ep cmd_qack a) st_qack_sent (record s { stable = st })
    ]
  ]

  -- The last fragment of a query completes the block in `resp`.
  unfoldable pub last_of_query : Arrival → CRecord → Srpc → Result
  last_of_query a c s = elim c.resp [
    | none ↦ fault
    | some p ↦
        elim (memcpy_at p.bytes (fr_size * (a.fnum - 1)) a.dp.bytes (net.ntohs a.dp.dhdr.flen)) [
          | none ↦ fault
          | some b ↦
              accept_query a (record c { resp = none }) (record p { bytes = b })
                (data_offset + net.ntohs a.dp.dhdr.tlen) s
        ]
  ]

  unfoldable pub on_query : Arrival → Option CRecord → Srpc → Result
  on_query a none s = ok s []
  on_query a (some c) s =
      if is_next a.seqno c.seqno && (c.state == st_idle || c.state == st_response_sent)
      then accept_query a (record c { seqno = a.seqno }) (copied a.n a.dp) a.n s
      else if a.seqno == c.seqno
          && (c.state == st_fack_sent && (a.fnum == c.last_frag + 1 && a.fnum == a.nfrags))
      then last_of_query a c s
      else if a.seqno == c.seqno && (c.state == st_qack_sent || c.state == st_response_sent)
      then update (crecord_set_state c c.state) s (resend c ∷ [])
      else ok s []

  -- The last fragment of a response.
  unfoldable pub last_of_response : Arrival → CRecord → Srpc → Result
  last_of_response a c s = elim c.resp [
    | none ↦ fault
    | some p ↦
        elim (memcpy_at p.bytes (fr_size * (a.fnum - 1)) a.dp.bytes (net.ntohs a.dp.dhdr.flen)) [
          | none ↦ fault
          | some b ↦
              reply (record c { resp = some (record p { bytes = b }); last_frag = a.fnum })
                (ctl a.ep cmd_rack a) st_idle s
        ]
  ]

  unfoldable pub on_response : Arrival → Option CRecord → Srpc → Result
  on_response a none s = ok s []
  on_response a (some c) s =
      if a.seqno == c.seqno
      then (if c.state == st_query_sent || c.state == st_awaiting_response
          then reply (record c { resp = some (copied a.n a.dp) }) (ctl a.ep cmd_rack a) st_idle s
          else if c.state == st_fack_sent && (a.fnum == c.last_frag + 1 && a.fnum == a.nfrags)
          then last_of_response a c s
          else ok s [])
      else ok s []

  -- The answer goes to the sender, known or not.
  unfoldable pub on_disconnect : Arrival → Option CRecord → Srpc → Result
  on_disconnect a cr s =
      let out =
        record { to = a.ep; packet = some (ctl_one a.ep cmd_dack a); size = cp_size } ∷ [] in
      elim cr [ none ↦ ok s out | some c ↦ update (crecord_set_state c st_timedout) s out ]

  -- The branch `NEW` of a fragment.
  unfoldable pub accept_fragment : Arrival → CRecord → Srpc → Result
  accept_fragment a c s =
      reply (record c { last_frag = a.fnum }) (ctl a.ep cmd_fack a) st_fack_sent s

  unfoldable pub start_fragments : ℕ → Arrival → CRecord → Srpc → Result
  start_fragments fill a c s = elim (first_fragment fill a.n (net.ntohs a.dp.dhdr.tlen) a.dp) [
    | none ↦ fault
    | some p ↦ accept_fragment a (record c { seqno = a.seqno; resp = some p }) s
  ]

  unfoldable pub next_fragment : Arrival → CRecord → Srpc → Result
  next_fragment a c s = elim c.resp [
    | none ↦ fault
    | some p ↦
        elim (memcpy_at p.bytes (fr_size * (a.fnum - 1)) a.dp.bytes (net.ntohs a.dp.dhdr.flen)) [
          | none ↦ fault
          | some b ↦ accept_fragment a (record c { resp = some (record p { bytes = b }) }) s
        ]
  ]

  unfoldable pub on_fragment : ℕ → Arrival → Option CRecord → Srpc → Result
  on_fragment fill a none s = ok s []
  on_fragment fill a (some c) s =
      if (c.state == st_idle || c.state == st_response_sent)
          && (is_next a.seqno c.seqno && a.fnum == 1)
        || (c.state == st_query_sent || c.state == st_awaiting_response)
          && (a.seqno == c.seqno && a.fnum == 1)
      then start_fragments fill a c s
      else if a.seqno == c.seqno && (c.state == st_fack_sent && a.fnum == c.last_frag + 1)
      then next_fragment a c s
      else if a.seqno == c.seqno && (c.state == st_fack_sent && a.fnum == c.last_frag)
      then update (crecord_set_state c c.state) s (resend c ∷ [])
      else ok s []

  unfoldable pub on_fack : Arrival → Option CRecord → Srpc → Result
  on_fack a none s = ok s []
  on_fack a (some c) s =
      if a.seqno == c.seqno && (c.state == st_fragment_sent && a.fnum == c.last_frag)
      then update (crecord_set_state c st_fack_received) s []
      else ok s []

  unfoldable pub on_ping : Arrival → Option CRecord → Srpc → Result
  on_ping a none s = ok s []
  on_ping a (some c) s =
      ok s (record { to = a.ep; packet = some (ctl_one a.ep cmd_pack a); size = cp_size } ∷ [])

  unfoldable pub on_pack : Arrival → Option CRecord → Srpc → Result
  on_pack a none s = ok s []
  on_pack a (some c) s = update (crecord_set_state c c.state) s []

  unfoldable pub on_seqno : Arrival → Option CRecord → Srpc → Result
  on_seqno a none s = ok s []
  on_seqno a (some c) s =
      if c.state == st_idle || c.state == st_response_sent
      then reply (record c { seqno = a.seqno }) (ctl_one a.ep cmd_sack a) st_idle s
      else ok s []

  unfoldable pub on_sack : Arrival → Option CRecord → Srpc → Result
  on_sack a none s = ok s []
  on_sack a (some c) s =
      if c.state == st_seqno_sent then update (crecord_set_state c st_idle) s [] else ok s []

  -- The switch.
  unfoldable pub dispatch : ℕ → ℕ → Arrival → Option CRecord → Srpc → Result
  dispatch fill cmd a cr s =
      if cmd == cmd_connect
      then on_connect a cr s
      else if cmd == cmd_cack
      then on_ack st_idle a cr s
      else if cmd == cmd_query
      then on_query a cr s
      else if cmd == cmd_qack
      then on_ack st_awaiting_response a cr s
      else if cmd == cmd_response
      then on_response a cr s
      else if cmd == cmd_rack
      then on_ack st_idle a cr s
      else if cmd == cmd_disconnect
      then on_disconnect a cr s
      else if cmd == cmd_dack
      then on_ack st_timedout a cr s
      else if cmd == cmd_fragment
      then on_fragment fill a cr s
      else if cmd == cmd_fack
      then on_fack a cr s
      else if cmd == cmd_ping
      then on_ping a cr s
      else if cmd == cmd_pack
      then on_pack a cr s
      else if cmd == cmd_seqno
      then on_seqno a cr s
      else if cmd == cmd_sack
      then on_sack a cr s
      else ok s []

  abbrev pub arrival : Datagram → Arrival
  arrival d = record {
    ep = endpoint_complete d.sender (net.ntohl d.payload.hdr.subport);
    seqno = net.ntohl d.payload.hdr.seqno;
    fnum = d.payload.hdr.fnum;
    nfrags = d.payload.hdr.nfrags;
    n = d.n;
    dp = d.payload;
    sname = d.sname;
  }

  -- One round of the loop. `none` is a failed `recvfrom`; `buf[n]` is written.
  unfoldable pub reader : ℕ → Option Datagram → Srpc → Result
  reader fill none s = ok s []
  reader fill (some d) s =
      if ltb d.n buf_size
      then (let cmd = net.ntohs d.payload.hdr.command in
          let a = arrival d in
          if leb cmd_low cmd && leb cmd cmd_high
          then dispatch fill cmd a (ctable_lookup s.ctable a.ep) s
          else ok s [])
      else fault

  -- The loop, over what `recvfrom` gives in each round, with all that is sent.
  abbrev pub and_then : Result → (Srpc → Result) → Result
  and_then fault f = fault
  and_then (ok s out) f = elim (f s) [ fault ↦ fault | ok t more ↦ ok t (out ++ more) ]

  unfoldable pub reader_loop : ℕ → List (Option Datagram) → Srpc → Result
  unfolding reader
  reader_loop fill [] s = ok s []
  reader_loop fill (d ∷ ds) s = and_then (reader fill d s) (reader_loop fill ds)
