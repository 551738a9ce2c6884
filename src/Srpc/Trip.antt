-- ===== src/Srpc/Trip.antt =====
-- srpc.c: a call from the client to the service and back, in one piece each way: what each end
-- sends.
pub mod Server
pub mod Round
pub mod Unanswered
use hwdb_opendpi.Prelude.{
  ℕ, ◌+◌, ◌-◌, ◌*◌, ◌%◌, ◌^◌, ◌<◌, ◌≤◌, ◌≡◌, refl, sym, ap, ◌∙◌, ◌⊎◌, inl, inr, true, false, Option,
  none, some, List, [], ◌∷◌, ◌++◌, arith, length, take, drop, take_all, take-take_append,
  length-append, leb, ltb, leb_of_le, ==_of_eq, ==_of_ne, ◌==◌,
}
use hwdb_opendpi.Endpoint.{ByteOrder, SockAddr, RpcEndpoint, sockaddr_size, endpoint_complete}
use hwdb_opendpi.Payload.{
  Packet, control, conn, dat, DataHeader, DataPayload, cp_complete, cp_size, cmd_query,
  cmd_response, attempts, ticks, fr_size,
}
use hwdb_opendpi.Stable.{Name}
use hwdb_opendpi.Crecord.{
  CRecord, crecord_set_state, crecord_set_payload, st_idle, st_query_sent, st_qack_sent,
  st_response_sent,
}
use hwdb_opendpi.Ctable.{ctable_lookup, store}
use hwdb_opendpi.Srpc.{Srpc, Message, Request, data_offset, copied}
use hwdb_opendpi.Srpc.Sending.{fragments_of, last_length, data_packet, send_last}
use hwdb_opendpi.Srpc.Sending.Pieces.{Sendable, piece_lem, fragments_of_lem, last_length_lem}
use hwdb_opendpi.Srpc.Reader.{Datagram, buf_size}
use hwdb_opendpi.Srpc.Call.{
  Call, waits, returns, answer_wait, seqno_limit, call_next, call_start, rpc_call, response_next,
  rpc_response,
}
use hwdb_opendpi.Srpc.Call.Sends.{call_next-last}
use hwdb_opendpi.Srpc.Interface.{rpc_query}

-- What the receive buffer holds behind a message.
pub record Stale : Type 0 where
  pub dhdr : DataHeader
  pub bytes : List ℕ
  pub sname : Name

-- A packet of `n` bytes from `addr`, as `recvfrom` leaves it.
abbrev pub wire : SockAddr → Stale → Packet → ℕ → Datagram
wire addr old (dat p) n = record {
  sender = addr;
  n = n;
  payload = record p { bytes = p.bytes ++ old.bytes; size = buf_size };
  sname = old.sname;
}
wire addr old (control h) n = record {
  sender = addr;
  n = n;
  payload = record { hdr = h; dhdr = old.dhdr; bytes = old.bytes; size = buf_size };
  sname = old.sname;
}
wire addr old (conn h name) n = record {
  sender = addr;
  n = n;
  payload = record { hdr = h; dhdr = old.dhdr; bytes = old.bytes; size = buf_size };
  sname = name;
}

-- A message of one piece.
abbrev pub IsShort : List ℕ → Type 0
IsShort m = (1 ≤ length m) × (length m ≤ fr_size)

one_piece : (m : List ℕ) → IsShort m → fragments_of (length m) ≡ 1
unfolding fragments_of
one_piece m h = omega (arith, h.0, h.1)

whole_piece : (m : List ℕ) → IsShort m → last_length (length m) 1 ≡ length m
unfolding last_length
whole_piece m h = omega (arith, h.0, h.1)

take-append : (m old : List ℕ) → take (length m) (m ++ old) ≡ m
take-append [] old = refl
take-append (x ∷ m) old = ap (λ l. x ∷ l) (take-append m old)

module _ ⦃net : ByteOrder⦄ where
  -- The key under which the receiver looks up a message of the subport from `addr`.
  abbrev pub key_of : SockAddr → ℕ → RpcEndpoint
  key_of addr subport = endpoint_complete addr (net.ntohl (subport % 2 ^ 32))

  -- The message `m` in one packet.
  abbrev pub in_one : ℕ → ℕ → ℕ → List ℕ → DataPayload
  in_one subport cmd seqno m = record {
    hdr = cp_complete subport cmd seqno 1 1;
    dhdr = record { tlen = net.htons (length m); flen = net.htons (length m) };
    bytes = m;
    size = data_offset + length m;
  }

  module _ (a : Call) (c : CRecord) (s : Srpc) (mine : ctable_lookup s.ctable a.ep ≡ some c)
      (idle : c.state ≡ st_idle) (early : c.seqno < seqno_limit) (short : IsShort a.query) where
    abbrev pub asking : CRecord
    asking =
        crecord_set_state
          (crecord_set_payload (record c { seqno = c.seqno + 1 })
            (dat (in_one a.ep.subport cmd_query (c.seqno + 1) a.query))
            (data_offset + length a.query) attempts ticks)
          st_query_sent

    pub rpc_call-asks :
        rpc_call a s
        ≡ waits answer_wait c.self
            (record s { ctable = store asking s.ctable })
            (record {
              to = a.ep;
              packet = some (dat (in_one a.ep.subport cmd_query (c.seqno + 1) a.query));
              size = data_offset + length a.query;
            }
              ∷ [])
    unfolding rpc_call call_start
    rpc_call-asks =
        let one = one_piece a.query short in
        let n : (c.seqno + 1) % 2 ^ 64 ≡ c.seqno + 1 = omega (arith, early) in
        let low : leb seqno_limit c.seqno ≡ false = ground arith in
        let goes =
          call_next-last a (c.seqno + 1) 1 (record c { seqno = c.seqno + 1 }) s
            (short.0, omega (arith, short.1)) (sym one) in
        rw (mine, rpc_call, ==_of_eq c.state 1 idle, low, n)
          (goes ∙ rw (one, whole_piece a.query short, take_all a.query) refl)

  -- The copy that the reader makes of a message in one packet is the message.
  pub copied_lem :
      (subport cmd seqno : ℕ) (m old : List ℕ)
      → copied
          (data_offset + length m)
          (record (in_one subport cmd seqno m) { bytes = m ++ old; size = buf_size })
        ≡ in_one subport cmd seqno m
  unfolding copied
  copied_lem subport cmd seqno m old =
      let k : data_offset + length m - data_offset ≡ length m = omega arith in
      rw (k, take-append m old) refl

  pub rpc_query-gives :
      (q : Request) (len : ℕ) (subport seqno : ℕ) (m : List ℕ)
      → q.packet ≡ in_one subport cmd_query seqno m
      → length m ≤ len
      → length m < 2 ^ 16
      → rpc_query q len ≡ some (q.sender, m)
  unfolding rpc_query
  rpc_query-gives q len subport seqno m e fits short =
      let n : net.ntohs (net.htons (length m)) ≡ length m =
        net.ntohs-htons (length m) ∙ omega (arith, short) in
      let headed : ltb (data_offset + length m) data_offset ≡ false = ground arith in
      rw
        (
          e,
          n,
          headed,
          leb_of_le (length m) len fits,
          leb_of_le (length m) (length m) (omega arith),
          take_all m,
        )
        refl

  module _ (to : RpcEndpoint) (message : List ℕ) (cr : CRecord) (s : Srpc)
      (known : ctable_lookup s.ctable to ≡ some cr) (state : cr.state ≡ st_qack_sent)
      (short : IsShort message) where
    abbrev pub answering : CRecord
    answering =
        crecord_set_state
          (crecord_set_payload cr (dat (in_one to.subport cmd_response cr.seqno message))
            (data_offset + length message) attempts ticks)
          st_response_sent

    pub rpc_response-answers :
        rpc_response to message s
        ≡ returns
            (some [])
            (record s { ctable = store answering s.ctable })
            (record {
              to = cr.ep;
              packet = some (dat (in_one to.subport cmd_response cr.seqno message));
              size = data_offset + length message;
            }
              ∷ [])
    unfolding rpc_response response_next send_last
    rpc_response-answers =
        let one = one_piece message short in
        let k = last_length (length message) 1 in
        let whole : k ≡ length message = whole_piece message short in
        rw (known, rpc_response, ==_of_eq cr.state 2 state, one)
          (rw
            (
              send_last,
              piece_lem message 1 k (omega (arith, whole)),
              leb_of_le (data_offset + k) (data_offset + k) (omega arith),
            )
            (rw (whole, take_all message) refl))
