-- ===== src/Srpc/Delivery/Fragmented.antt =====
-- srpc.c: a whole query in fragments, from the packets that `rpc_call` makes to the service's
-- queue.
use mathlib.Core.Path.{subst}
use hwdb_opendpi.Prelude.{
  ℕ, zero, suc, ◌+◌, ◌-◌, ◌*◌, ◌%◌, ◌^◌, ◌<◌, ◌≤◌, ◌≡◌, refl, ◌∙◌, ◌⊎◌, true, Option, some, List,
  [], ◌∷◌, ◌++◌, arith, length, take, drop, length-append, length-take, length-drop,
  take-take_append,
}
use hwdb_opendpi.Endpoint.{ByteOrder, SockAddr, RpcEndpoint, sockaddr_size, endpoint_complete}
use hwdb_opendpi.Payload.{
  DataPayload, cp_complete, cmd_query, cmd_qack, cmd_fragment, cmd_fack, fr_size,
}
use hwdb_opendpi.Stable.{Name, Stable}
use hwdb_opendpi.Crecord.{CRecord, st_idle, st_response_sent}
use hwdb_opendpi.Ctable.{ctable_lookup}
use hwdb_opendpi.Srpc.{Srpc, Message, Queue, ok, data_offset, enqueue, is_next}
use hwdb_opendpi.Srpc.Sending.{fragments_of, last_length, data_packet}
use hwdb_opendpi.Srpc.Sending.Pieces.{fragments_of_lem, last_length_lem}
use hwdb_opendpi.Srpc.Reader.{Datagram, reader, reader_loop}
use hwdb_opendpi.Srpc.Reader.Keeps.{IsSrpc}
use hwdb_opendpi.Srpc.Sending.Pieces.{fragments_of-lt}
use hwdb_opendpi.Srpc.Delivery.{Transfer, Carries, Holds, acknowledged, fragment-Holds}
use hwdb_opendpi.Srpc.Delivery.Whole.{first-Holds, last-queued}

loop_step :
    ⦃net : ByteOrder⦄ (fill : ℕ) (d : Datagram) (ds : List (Option Datagram)) (s s1 s2 : Srpc)
    (out more : List Message)
    → reader fill (some d) s ≡ ok s1 out
    → reader_loop fill ds s1 ≡ ok s2 more
    → reader_loop fill (some d ∷ ds) s ≡ ok s2 (out ++ more)
unfolding reader_loop
loop_step fill d ds s s1 s2 out more e e' = rw (e, e') refl

module _ ⦃net : ByteOrder⦄ (addr : SockAddr) (ep owner : RpcEndpoint) (seqno : ℕ) (m : List ℕ)
    (svc : Name) (stale : ℕ → List ℕ) where
  abbrev pub query_of : Transfer
  query_of = record {
    key = endpoint_complete addr (net.ntohl (ep.subport % 2 ^ 32));
    owner = owner;
    seqno = seqno;
    m = m;
    svc = svc;
  }

  -- The packet that `rpc_call` sends as piece `fnum`, as `recvfrom` leaves it; `stale fnum` is what
  -- the receive buffer holds behind it.
  abbrev pub arriving : ℕ → ℕ → ℕ → Datagram
  arriving cmd fnum k =
      let b = take k (drop (fr_size * (fnum - 1)) m) in
      record {
        sender = addr;
        n = data_offset + k;
        payload =
            data_packet ep cmd seqno fnum (fragments_of (length m)) (length m) k (b ++ stale fnum);
        sname = [];
      }

  arriving-Carries :
      (cmd fnum k : ℕ)
      → cmd < 2 ^ 16
      → fnum < 2 ^ 8
      → seqno < 2 ^ 32
      → length m < 2 ^ 16
      → fr_size * (fnum - 1) + k ≤ length m
      → Carries query_of (arriving cmd fnum k) cmd fnum k
  unfolding cp_complete
  arriving-Carries cmd fnum k c f n l h =
      let b = take k (drop (fr_size * (fnum - 1)) m) in
      let size : length b ≡ k = omega (
        arith,
        length-take k (drop (fr_size * (fnum - 1)) m),
        length-drop (fr_size * (fnum - 1)) m,
      ) in
      record {
        size = refl;
        command = net.ntohs-htons cmd ∙ omega arith;
        from = refl;
        number = net.ntohl-htonl seqno ∙ omega arith;
        fnum_lem = omega arith;
        nfrags = omega (arith, fragments_of-lt (length m));
        tlen = net.ntohs-htons (length m) ∙ omega arith;
        flen = net.ntohs-htons k ∙ omega arith;
        bytes =
            take-take_append k (drop (fr_size * (fnum - 1)) m) (stale fnum)
              (omega (arith, length-drop (fr_size * (fnum - 1)) m));
        long = omega (arith, size, length-append b (stale fnum));
      }

  abbrev pub last_piece : ℕ
  last_piece = last_length (length m) (fragments_of (length m))

  -- The datagrams from piece `fnum` on, `more` of them before the last, and what answers them.
  abbrev pub datagrams : ℕ → ℕ → List (Option Datagram)
  datagrams zero fnum = some (arriving cmd_query fnum last_piece) ∷ []
  datagrams (suc more) fnum = some (arriving cmd_fragment fnum fr_size) ∷ datagrams more (suc fnum)

  abbrev pub answers : ℕ → ℕ → List Message
  answers zero fnum = acknowledged query_of cmd_qack (arriving cmd_query fnum last_piece) ∷ []
  answers (suc more) fnum =
      acknowledged query_of cmd_fack (arriving cmd_fragment fnum fr_size) ∷ answers more (suc fnum)

  module _ (fill : ℕ) (head : DataPayload) (st st' : Stable Queue) (number : seqno < 2 ^ 32)
      (short : length m < 2 ^ 16) (filled : 1 ≤ length m) (whole : length addr ≡ sockaddr_size)
      (queued : enqueue svc
          (record {
            sender = owner;
            packet = record head { bytes = m };
            size = data_offset + length m;
          })
          st
        ≡ some st') where
    -- From a state that holds the first `f` pieces.
    datagrams-queued :
        (more f : ℕ) (s : Srpc)
        → more + suc f ≡ fragments_of (length m)
        → Holds query_of head st f s
        → (s' : Srpc) × (reader_loop fill (datagrams more (suc f)) s ≡ ok s' (answers more (suc f)))
          × (s'.stable ≡ st')
    unfolding reader_loop endpoint_complete
    datagrams-queued zero f s e w =
        let law = last_length_lem (length m) filled (omega arith) in
        let ends : fr_size * f + last_piece ≡ length m = omega (arith, law.0) in
        let (s', run, same) =
          last-queued query_of (arriving cmd_query (suc f) last_piece) head st st' f last_piece s w
            (arriving-Carries cmd_query (suc f) last_piece (omega arith)
              (omega (arith, fragments_of-lt (length m))) number short (omega (arith, ends)))
            law.2 ends (omega arith) queued fill in
        (s', rw run refl, same)
    datagrams-queued (suc more) f s e w =
        let law = last_length_lem (length m) filled (omega arith) in
        let room : fr_size * f + fr_size ≤ length m = omega (arith, law.0) in
        let (s1, run1, w1) =
          fragment-Holds query_of (arriving cmd_fragment (suc f) fr_size) head st f s w
            (arriving-Carries cmd_fragment (suc f) fr_size (omega arith)
              (omega (arith, fragments_of-lt (length m))) number short (omega (arith, room)))
            room whole fill in
        let (s2, run2, same) = datagrams-queued more (suc f) s1 (omega arith) w1 in
        (
          s2,
          loop_step fill (arriving cmd_fragment (suc f) fr_size) (datagrams more (suc (suc f))) s s1
              s2 (acknowledged query_of cmd_fack (arriving cmd_fragment (suc f) fr_size) ∷ [])
              (answers more (suc (suc f))) run1 run2,
          same,
        )

  -- With the number of fragments written out.
  fragments-queued :
      (more : ℕ)
      → more + 2 ≡ fragments_of (length m)
      → (fill : ℕ) (c : CRecord) (s : Srpc) (st' : Stable Queue) → IsSrpc s
      → length addr ≡ sockaddr_size
      → seqno < 2 ^ 32
      → fr_size < length m
      → length m < 2 ^ 16
      → ctable_lookup s.ctable query_of.key ≡ some c
      → (c.state ≡ st_idle) ⊎ (c.state ≡ st_response_sent)
      → is_next seqno c.seqno ≡ true
      → c.svc ≡ some svc
      → c.ep ≡ owner
      → enqueue svc
          (record {
            sender = owner;
            packet = record (arriving cmd_fragment 1 fr_size).payload {
              bytes = m;
              size = data_offset + length m;
            };
            size = data_offset + length m;
          })
          s.stable
        ≡ some st'
      → (s' : Srpc) × (reader_loop fill (datagrams (suc more) 1) s ≡ ok s' (answers (suc more) 1))
        × (s'.stable ≡ st')
  unfolding endpoint_complete
  fragments-queued more e fill c s st' v whole number long short known ready next service peer
        queued =
      let first = arriving cmd_fragment 1 fr_size in
      let (s1, run1, w1) =
        first-Holds query_of first c s fill v whole known ready next service peer
          (arriving-Carries cmd_fragment 1 fr_size (omega arith) (omega arith) number short
            (omega arith))
          (omega arith) in
      let (s2, run2, same) =
        datagrams-queued fill (record first.payload { size = data_offset + length m }) s.stable st'
          number short (omega arith) whole queued more 1 s1 (omega arith) w1 in
      (
        s2,
        loop_step fill first (datagrams more 2) s s1 s2 (acknowledged query_of cmd_fack first ∷ [])
            (answers more 2) run1 run2,
        same,
      )

  -- In a well-formed state, a query of 1025 to 65535 bytes for an offered service, from a full
  -- address that looks up a connection which is idle or has sent its response, under the
  -- connection's next number, below 2 ^ 32, in the datagrams of the packets that rpc_call makes,
  -- all arriving once and in order: the reader answers each fragment by a FACK and the last piece
  -- by a QACK, and the service's queue is then the old one with one request that has the query's
  -- bytes.
  pub fragmented_query :
      (fill : ℕ) (c : CRecord) (s : Srpc) (st' : Stable Queue)
      → IsSrpc s
      → length addr ≡ sockaddr_size
      → seqno < 2 ^ 32
      → fr_size < length m
      → length m < 2 ^ 16
      → ctable_lookup s.ctable query_of.key ≡ some c
      → (c.state ≡ st_idle) ⊎ (c.state ≡ st_response_sent)
      → is_next seqno c.seqno ≡ true
      → c.svc ≡ some svc
      → c.ep ≡ owner
      → enqueue svc
          (record {
            sender = owner;
            packet = record (arriving cmd_fragment 1 fr_size).payload {
              bytes = m;
              size = data_offset + length m;
            };
            size = data_offset + length m;
          })
          s.stable
        ≡ some st'
      → (s' : Srpc) × (reader_loop fill (datagrams (fragments_of (length m) - 1) 1) s
          ≡ ok s' (answers (fragments_of (length m) - 1) 1))
        × (s'.stable ≡ st')
  fragmented_query fill c s st' v whole number long short known ready next service peer queued =
      let big : 2 ≤ fragments_of (length m) =
        omega (arith, fragments_of_lem (length m) (omega arith) (omega arith)) in
      let e : suc (fragments_of (length m) - 2) ≡ fragments_of (length m) - 1 = omega arith in
      subst
        (λ k.
          (s' : Srpc) × (reader_loop fill (datagrams k 1) s ≡ ok s' (answers k 1))
          × (s'.stable ≡ st'))
        e
        (fragments-queued (fragments_of (length m) - 2) (omega arith) fill c s st' v whole number
          long short known ready next service peer queued)
