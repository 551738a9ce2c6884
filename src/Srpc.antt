-- ===== src/Srpc.antt =====
-- srpc.c: the state that the reader, the timer and the callers of the interface share, and the
-- primitives of their handlers. Everything happens under the table's mutex, so a handler is one
-- step. A handler either leaves a state and the messages that it sends, in order, or it runs into a
-- `fault`: an access outside an object or through NULL.
pub mod Reader
pub mod Sending
pub mod Call
pub mod Delivery
pub mod Interface
pub mod Runs
pub mod Serving
pub mod Start
pub mod Timer
pub mod Trip
use hwdb_opendpi.Prelude.{
  ℕ, ◌+◌, ◌-◌, ◌%◌, ◌^◌, Bool, true, false, ◌&&◌, Option, none, some, List, [], ◌∷◌, ◌++◌, leb,
  ◌==◌, if◌then◌else◌, length, take, drop, replicate, get_or, set,
}
use hwdb_opendpi.Endpoint.{RpcEndpoint}
use hwdb_opendpi.Payload.{Packet, DataPayload}
use hwdb_opendpi.Stable.{Name, Stable, SRecord, hash, str_eq}
use hwdb_opendpi.Crecord.{CRecord}
use hwdb_opendpi.Ctable.{Table, store}

-- What `tsl_append` puts on a service's queue.
pub record Request : Type 0 where
  pub sender : RpcEndpoint
  pub packet : DataPayload
  pub size : ℕ

-- The queue of a service, oldest first: the abstract queue that tslist.c implements.
abbrev pub Queue : Type 0
Queue = List Request

-- `brk` is the address that the next connection record gets, and `ctr` the counter of subports.
pub record Srpc : Type 0 where
  pub ctable : Table
  pub stable : Stable Queue
  pub ctr : ℕ
  pub brk : ℕ

-- A call of `send_payload`: the datagram may be lost, which the code does not look at.
pub record Message : Type 0 where
  pub to : RpcEndpoint
  pub packet : Option Packet
  pub size : ℕ

pub data Result : Type 0 where
  ok : Srpc → List Message → Result
  fault : Result

-- `send_payload(cr->ep, cr->pl, cr->size)`
abbrev pub resend : CRecord → Message
resend cr = record { to = cr.ep; packet = cr.pl; size = cr.size }

-- A record of the table changes, and `out` is sent.
unfoldable pub update : CRecord → Srpc → List Message → Result
update cr s out = ok (record s { ctable = store cr s.ctable }) out

-- `memcpy(dst + off, src, k)`: `none` is a read or a write past the end of an object.
unfoldable pub memcpy_at : List ℕ → ℕ → List ℕ → ℕ → Option (List ℕ)
memcpy_at dst off src k =
    if leb (off + k) (length dst) && leb k (length src)
    then some (take off dst ++ (take k src ++ drop (off + k) dst))
    else none

-- `sizeof(PayloadHeader) + sizeof(DataHeader)`
abbrev pub data_offset : ℕ
data_offset = 16

-- A fresh block with the first `n` bytes of the receive buffer.
unfoldable pub copied : ℕ → DataPayload → DataPayload
copied n dp = record dp { bytes = take (n - data_offset) dp.bytes; size = n }

-- A fresh block for `tlen` bytes of data, with the first `n` bytes of the buffer copied to its
-- start; `fill` is what a byte holds that nothing wrote.
unfoldable pub first_fragment : ℕ → ℕ → ℕ → DataPayload → Option DataPayload
first_fragment fill n tlen dp =
    if leb n (data_offset + tlen)
    then some (record dp {
      bytes = take (n - data_offset) dp.bytes ++ replicate (tlen - (n - data_offset)) fill;
      size = data_offset + tlen;
    })
    else none

-- `tsl_append(cr->svc->s_queue, cr->ep, p, dplen)`, on the service of that name.
unfoldable pub push_to : Name → Request → List (SRecord Queue) → List (SRecord Queue)
push_to name q [] = []
push_to name q (r ∷ rs) =
    if str_eq r.s_name name
    then record r { s_queue = r.s_queue ++ q ∷ [] } ∷ rs
    else r ∷ push_to name q rs

unfoldable pub enqueue : Name → Request → Stable Queue → Option (Stable Queue)
enqueue name q st = elim (hash name) [
  | none ↦ none
  | some hv ↦ some (set st hv (push_to name q (get_or st hv [])))
]

-- `a - b == 1` in `unsigned long`
abbrev pub is_next : ℕ → ℕ → Bool
is_next a b = (a + 2 ^ 64 - b) % 2 ^ 64 == 1
