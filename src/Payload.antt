-- ===== src/Payload.antt =====
-- srpc.c and srpcdefs.h: the commands, the message layouts and the tuning constants. A header holds
-- its fields as they stand in memory: `command`, `seqno`, `tlen` and `flen` in network order.
-- The data of a packet is the list of its bytes.
use hwdb_opendpi.Prelude.{ℕ, ◌%◌, ◌^◌, List}
use hwdb_opendpi.Endpoint.{ByteOrder}

abbrev pub cmd_connect : ℕ
cmd_connect = 1

abbrev pub cmd_cack : ℕ
cmd_cack = 2

abbrev pub cmd_query : ℕ
cmd_query = 3

abbrev pub cmd_qack : ℕ
cmd_qack = 4

abbrev pub cmd_response : ℕ
cmd_response = 5

abbrev pub cmd_rack : ℕ
cmd_rack = 6

abbrev pub cmd_disconnect : ℕ
cmd_disconnect = 7

abbrev pub cmd_dack : ℕ
cmd_dack = 8

abbrev pub cmd_fragment : ℕ
cmd_fragment = 9

abbrev pub cmd_fack : ℕ
cmd_fack = 10

abbrev pub cmd_ping : ℕ
cmd_ping = 11

abbrev pub cmd_pack : ℕ
cmd_pack = 12

abbrev pub cmd_seqno : ℕ
cmd_seqno = 13

abbrev pub cmd_sack : ℕ
cmd_sack = 14

abbrev pub cmd_low : ℕ
cmd_low = cmd_connect

abbrev pub cmd_high : ℕ
cmd_high = cmd_sack

pub record PayloadHeader : Type 0 where
  pub subport : ℕ
  pub seqno : ℕ
  pub command : ℕ
  pub fnum : ℕ
  pub nfrags : ℕ

pub record DataHeader : Type 0 where
  pub tlen : ℕ
  pub flen : ℕ

-- `size` is how many bytes the object has: where that is less than 16, the data header is not all
-- in it, and must not be read.
pub record DataPayload : Type 0 where
  pub hdr : PayloadHeader
  pub dhdr : DataHeader
  pub bytes : List ℕ
  pub size : ℕ

-- What a `void *pl` points to: a control, a connect or a data payload.
pub data Packet : Type 0 where
  control : PayloadHeader → Packet
  conn : PayloadHeader → List ℕ → Packet
  dat : DataPayload → Packet

-- `sizeof(PayloadHeader)`, also `CP_SIZE`, and `sizeof(DataHeader)`.
abbrev pub cp_size : ℕ
cp_size = 12

abbrev pub dhdr_size : ℕ
dhdr_size = 4

abbrev pub attempts : ℕ
attempts = 7

abbrev pub ticks : ℕ
ticks = 2

abbrev pub fr_size : ℕ
fr_size = 1024

-- The assignments truncate to the fields' widths.
unfoldable pub cp_complete : ⦃net : ByteOrder⦄ → ℕ → ℕ → ℕ → ℕ → ℕ → PayloadHeader
cp_complete ⦃net⦄ sp cmd sn fn nfs = record {
  subport = sp % 2 ^ 32;
  seqno = net.htonl sn;
  command = net.htons cmd;
  fnum = fn % 2 ^ 8;
  nfrags = nfs % 2 ^ 8;
}
