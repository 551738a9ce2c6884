-- ===== src/Srpc/Call/Sends.antt =====
-- srpc.c, `rpc_call`: the packets that a call sends.
use hwdb_opendpi.Prelude.{
  ℕ, ◌+◌, ◌-◌, ◌*◌, ◌%◌, ◌^◌, ◌<◌, ◌≤◌, ◌≡◌, refl, true, false, some, [], ◌∷◌, arith, ltb, length,
  take, drop, leb_of_le,
}
use hwdb_opendpi.Endpoint.{ByteOrder}
use hwdb_opendpi.Payload.{dat, fr_size, cmd_fragment, cmd_query, attempts, ticks}
use hwdb_opendpi.Crecord.{
  CRecord, crecord_set_state, crecord_set_payload, st_fragment_sent, st_query_sent,
}
use hwdb_opendpi.Ctable.{store}
use hwdb_opendpi.Srpc.{Srpc, Message, data_offset}
use hwdb_opendpi.Srpc.Sending.{fragments_of, last_length, data_packet, send_fragment, send_last}
use hwdb_opendpi.Srpc.Sending.Pieces.{Sendable, piece_lem, last_length_lem}
use hwdb_opendpi.Srpc.Call.{Call, waits, fragment_wait, answer_wait, call_next}

module _ ⦃net : ByteOrder⦄ (a : Call) (seqno fnum : ℕ) where
  abbrev pub pieces : ℕ
  pieces = fragments_of (length a.query)

  -- The message that carries the piece `fnum`, of `k` bytes.
  abbrev pub carrying : ℕ → ℕ → Message
  carrying cmd k = record {
    to = a.ep;
    packet = some (
        dat (
          data_packet a.ep cmd seqno fnum pieces (length a.query) k
            (take k (drop (fr_size * (fnum - 1)) a.query))));
    size = data_offset + k;
  }

  -- The record keeps its message for the timer, and the state says what is waited for.
  abbrev pub sent : CRecord → ℕ → ℕ → ℕ → CRecord
  sent c cmd k st =
      crecord_set_state
        (crecord_set_payload c
          (dat (
            data_packet a.ep cmd seqno fnum pieces (length a.query) k
              (take k (drop (fr_size * (fnum - 1)) a.query))))
          (data_offset + k) attempts ticks)
        st

  module _ (cr : CRecord) (s : Srpc) where
    -- From the first piece to the one before the last of a message of 1 to 261120 bytes, the call
    -- sends a FRAGMENT with the FR_SIZE bytes of the message that have its number, and waits for
    -- the FACK of that number.
    pub call_next-fragment :
        Sendable a.query
        → 1 ≤ fnum
        → fnum < pieces
        → call_next a seqno fnum pieces cr s
          ≡ waits
              (fragment_wait seqno fnum pieces)
              cr.self
              (record s {
                ctable =
                    store
                      (sent (record cr { last_frag = fnum }) cmd_fragment fr_size st_fragment_sent)
                      s.ctable;
              })
              (carrying cmd_fragment fr_size ∷ [])
    unfolding call_next send_fragment
    call_next-fragment m lo hi =
        let law = last_length_lem (length a.query) m.0 m.1 in
        let e : ltb fnum pieces ≡ true = ground arith in
        rw (e, send_fragment, piece_lem a.query fnum fr_size (omega (arith, law.0))) refl

    -- As the last piece of a message of 1 to 261120 bytes the call sends a QUERY with the bytes
    -- that are left, and waits for its answer.
    pub call_next-last :
        Sendable a.query
        → fnum ≡ pieces
        → call_next a seqno fnum pieces cr s
          ≡ waits answer_wait cr.self
              (record s {
                ctable =
                    store
                      (sent cr cmd_query (last_length (length a.query) pieces) st_query_sent)
                      s.ctable;
              })
              (carrying cmd_query (last_length (length a.query) pieces) ∷ [])
    unfolding call_next send_last
    call_next-last m last =
        let law = last_length_lem (length a.query) m.0 m.1 in
        let k = last_length (length a.query) pieces in
        let e : ltb fnum pieces ≡ false = ground arith in
        let size : (data_offset + k) % 2 ^ 16 ≡ data_offset + k = omega (arith, law.2) in
        rw (e, size)
          (rw
            (
              send_last,
              piece_lem a.query fnum k (omega (arith, law.0)),
              leb_of_le (data_offset + k) (data_offset + k) (omega arith),
            )
            refl)
