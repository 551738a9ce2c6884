-- ===== src/Crecord.antt =====
-- crecord.c and crecord.h: the record of a connection. `self` is the address of the record, and 0
-- is NULL. The mutex is that of the connection table, which every operation holds; the condition
-- variable wakes a waiting thread, which tests its states again. `next` and `link` are the lists of
-- Ctable.antt. A service is known by its name.
pub mod Wait
use hwdb_opendpi.Prelude.{
  ℕ, suc, get_elem?, ◌*◌, ◌++◌, ◌%◌, ◌^◌, Option, none, some, List, [], ◌∷◌, ◌==◌, if◌then◌else◌,
}
use hwdb_opendpi.Endpoint.{RpcEndpoint}
use hwdb_opendpi.Payload.{Packet, DataPayload}
use hwdb_opendpi.Stable.{Name}

abbrev pub st_idle : ℕ
st_idle = 1

abbrev pub st_qack_sent : ℕ
st_qack_sent = 2

abbrev pub st_response_sent : ℕ
st_response_sent = 3

abbrev pub st_connect_sent : ℕ
st_connect_sent = 4

abbrev pub st_query_sent : ℕ
st_query_sent = 5

abbrev pub st_awaiting_response : ℕ
st_awaiting_response = 6

abbrev pub st_timedout : ℕ
st_timedout = 7

abbrev pub st_disconnect_sent : ℕ
st_disconnect_sent = 8

abbrev pub st_fragment_sent : ℕ
st_fragment_sent = 9

abbrev pub st_fack_received : ℕ
st_fack_received = 10

abbrev pub st_fragment_received : ℕ
st_fragment_received = 11

abbrev pub st_fack_sent : ℕ
st_fack_sent = 12

abbrev pub st_seqno_sent : ℕ
st_seqno_sent = 13

-- One minute of 20 ms ticks.
abbrev pub ticks_between_pings : ℕ
ticks_between_pings = 60 * 50

abbrev pub pings_before_purge : ℕ
pings_before_purge = 3

pub record CRecord : Type 0 where
  pub self : ℕ
  pub seqno : ℕ
  pub state : ℕ
  pub ep : RpcEndpoint
  pub svc : Option Name
  pub pl : Option Packet
  pub resp : Option DataPayload
  pub size : ℕ
  pub nattempts : ℕ
  pub ticks : ℕ
  pub ticks_left : ℕ
  pub pings_til_purge : ℕ
  pub ticks_til_ping : ℕ
  pub last_frag : ℕ

-- `fresh` is what `mem_alloc` returns.
unfoldable pub crecord_create : ℕ → RpcEndpoint → ℕ → Option CRecord
crecord_create fresh ep seqno =
    if fresh == 0
    then none
    else some (record {
      self = fresh;
      seqno = seqno;
      state = 0;
      ep = ep;
      svc = none;
      pl = none;
      resp = none;
      size = 0;
      nattempts = 0;
      ticks = 0;
      ticks_left = 0;
      pings_til_purge = pings_before_purge;
      ticks_til_ping = ticks_between_pings;
      last_frag = 0;
    })

unfoldable pub crecord_set_state : CRecord → ℕ → CRecord
crecord_set_state cr state = record cr {
  state = state;
  ticks_til_ping = ticks_between_pings;
  pings_til_purge = pings_before_purge;
}

-- The old payload is freed.
unfoldable pub crecord_set_payload : CRecord → Packet → ℕ → ℕ → ℕ → CRecord
crecord_set_payload cr pl size nattempts ticks = record cr {
  pl = some pl;
  size = size % 2 ^ 32;
  nattempts = nattempts % 2 ^ 16;
  ticks = ticks % 2 ^ 16;
  ticks_left = ticks % 2 ^ 16;
}

unfoldable pub crecord_set_service : CRecord → Name → CRecord
crecord_set_service cr sr = record cr { svc = some sr }

-- The blocks that belong to a record, in the order in which they are freed.
pub data Block : Type 0 where
  endpoint_block payload_block response_block record_block : Block

abbrev held : {A : Type 0} → Option A → Block → List Block
held none b = []
held (some x) b = b ∷ []

unfoldable pub crecord_destroy : CRecord → List Block
crecord_destroy cr =
    endpoint_block
    ∷ (held cr.pl payload_block ++ (held cr.resp response_block ++ record_block ∷ []))

-- The index of the first state that matches, or the number of states.
unfoldable pub matched_state : ℕ → List ℕ → ℕ
matched_state st [] = 0
matched_state st (s ∷ ss) = if st == s then 0 else suc (matched_state st ss)

-- One pass of the loop: `none` is a wait on the condition variable.
unfoldable pub crecord_wait_for_state : CRecord → List ℕ → Option ℕ
unfolding matched_state
crecord_wait_for_state cr states = get_elem? states (matched_state cr.state states)
