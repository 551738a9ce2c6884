-- ===== src/Srpc/Sending.antt =====
-- srpc.c: what rpc_call and rpc_response share. Both cut a message into pieces of FR_SIZE bytes,
-- send all but the last as FRAGMENT and wait for each FACK, and send the last with the message's
-- own command.
pub mod Pieces
use hwdb_opendpi.Prelude.{
  ℕ, ◌+◌, ◌-◌, ◌*◌, ◌/◌, ◌%◌, ◌^◌, ◌&&◌, Option, none, some, List, [], ◌∷◌, ltb, leb, ◌==◌,
  if◌then◌else◌, length, take, drop, get_or,
}
use hwdb_opendpi.Endpoint.{ByteOrder, RpcEndpoint, endpoint_hash}
use hwdb_opendpi.Payload.{
  dat, DataPayload, PayloadHeader, cp_complete, attempts, ticks, fr_size, cmd_fragment,
}
use hwdb_opendpi.Crecord.{CRecord, crecord_set_state, crecord_set_payload, st_fragment_sent}
use hwdb_opendpi.Ctable.{Table, ctable_size, store}
use hwdb_opendpi.Srpc.{Srpc, Message, data_offset}

-- The record at the address `p`, in the bucket of `ep`: `none` when it is not in the table any
-- more.
unfoldable pub find_self : ℕ → List CRecord → Option CRecord
find_self p [] = none
find_self p (r ∷ rs) = if p == r.self then some r else find_self p rs

unfoldable pub deref : Table → RpcEndpoint → ℕ → Option CRecord
unfolding find_self
deref t ep p = find_self p (get_or t (endpoint_hash ep ctable_size) [])

-- `(len - 1) / FR_SIZE + 1`, cut to an `unsigned char`.
unfoldable pub fragments_of : ℕ → ℕ
fragments_of len = ((len + (2 ^ 32 - 1)) % 2 ^ 32 / fr_size + 1) % 2 ^ 8

-- `len - FR_SIZE * (nfrags - 1)`, in 32 bits.
unfoldable pub last_length : ℕ → ℕ → ℕ
last_length len nfrags = (len + 2 ^ 32 + fr_size - fr_size * nfrags) % 2 ^ 32

-- The bytes that `memcpy(buf->data, &cp[FR_SIZE * (fnum - 1)], k)` copies; `none` is a read past
-- the end of the message.
unfoldable pub piece : List ℕ → ℕ → ℕ → Option (List ℕ)
piece message fnum k =
    if leb (fr_size * (fnum - 1) + k) (length message)
    then some (take k (drop (fr_size * (fnum - 1)) message))
    else none

module _ ⦃net : ByteOrder⦄ where
  -- The packet with `k` bytes of the message, and its header.
  abbrev pub data_packet : RpcEndpoint → ℕ → ℕ → ℕ → ℕ → ℕ → ℕ → List ℕ → DataPayload
  data_packet ep cmd seqno fnum nfrags len k bytes = record {
    hdr = cp_complete ep.subport cmd seqno fnum nfrags;
    dhdr = record { tlen = net.htons len; flen = net.htons k };
    bytes = bytes;
    size = data_offset + k;
  }

  -- One round of the loop over the fragments: the state and the message, or `none` for a fault.
  unfoldable pub send_fragment :
      List ℕ → RpcEndpoint → ℕ → ℕ → ℕ → CRecord → Srpc → Option (Srpc × Message)
  unfolding piece
  send_fragment message ep seqno fnum nfrags cr s = elim (piece message fnum fr_size) [
    | none ↦ none
    | some b ↦
        let p = dat (data_packet ep cmd_fragment seqno fnum nfrags (length message) fr_size b) in
        let size = data_offset + fr_size in
        let c = crecord_set_payload (record cr { last_frag = fnum }) p size attempts ticks in
        some (
          record s { ctable = store (crecord_set_state c st_fragment_sent) s.ctable },
          record { to = ep; packet = some p; size = size },
        )
  ]

  -- The last piece, as a message of the command `cmd`, to `to`; the record goes to the state `st`.
  -- `size` is what is allocated and sent: a block too small for the bytes is a fault.
  unfoldable pub send_last :
      List ℕ
      → RpcEndpoint
      → RpcEndpoint
      → ℕ
      → ℕ
      → ℕ
      → ℕ
      → ℕ
      → ℕ
      → CRecord
      → Srpc
      → Option (Srpc × Message)
  unfolding piece
  send_last message ep to cmd seqno fnum nfrags size st cr s =
      let blen = last_length (length message) nfrags in
      elim (piece message fnum blen) [
        | none ↦ none
        | some b ↦
            let p = dat (data_packet ep cmd seqno fnum nfrags (length message) blen b) in
            let c = crecord_set_payload cr p size attempts ticks in
            if leb (data_offset + blen) size
            then some (
              record s { ctable = store (crecord_set_state c st) s.ctable },
              record { to = to; packet = some p; size = size },
            )
            else none
      ]
