-- ===== src/Srpc/Interface.antt =====
-- srpc.c: the rest of the interface, rpc_socket, rpc_connect, rpc_disconnect and rpc_query. As in
-- rpc_call, a call that waits is cut at its wait.
pub mod Connects
pub mod Keeps
use hwdb_opendpi.Prelude.{
  ℕ, ◌+◌, Option, none, some, List, [], ◌∷◌, ◌++◌, ltb, leb, ◌==◌, if◌then◌else◌, length, take,
  replicate,
}
use hwdb_opendpi.Endpoint.{ByteOrder, RpcEndpoint}
use hwdb_opendpi.Payload.{
  control, conn, cp_complete, cp_size, attempts, ticks, cmd_connect, cmd_disconnect,
}
use hwdb_opendpi.Stable.{Name}
use hwdb_opendpi.Crecord.{
  crecord_create, crecord_set_state, crecord_set_payload, crecord_wait_for_state, st_idle,
  st_timedout, st_connect_sent, st_disconnect_sent,
}
use hwdb_opendpi.Ctable.{ctable_new_subport, ctable_lookup, ctable_insert, ctable_remove, store}
use hwdb_opendpi.Srpc.{Srpc, Message, Request, data_offset}
use hwdb_opendpi.Srpc.Sending.{deref}

-- The state behind rpc_connect's wait: it waits, with the new endpoint and its record's address, or
-- it returns, or it leaves an object.
pub data Connecting : Type 0 where
  waits : RpcEndpoint → ℕ → Srpc → List Message → Connecting
  returns : Option RpcEndpoint → Srpc → List Message → Connecting
  faults : Connecting

-- `struct sockaddr_in`: the family, the port in network order, the address and eight zeros, over
-- `bytes_of`, which gives the bytes of an `unsigned short` in memory.
unfoldable pub rpc_socket :
    ⦃net : ByteOrder⦄ → (ℕ → List ℕ) → Option (List ℕ) → ℕ → ℕ → Option RpcEndpoint
rpc_socket ⦃net⦄ bytes_of none port subport = none
rpc_socket ⦃net⦄ bytes_of (some ip) port subport = some (record {
  addr = bytes_of 2 ++ (bytes_of (net.htons port) ++ (ip ++ replicate 8 0));
  subport = subport;
})

module _ ⦃net : ByteOrder⦄ (bytes_of : ℕ → List ℕ) where
  -- `ip` is what gethostbyname gives for the host. An unknown host gives NULL, and
  -- `nep->subport` reads through it.
  unfoldable pub rpc_connect : ℕ → Option (List ℕ) → ℕ → Name → ℕ → Srpc → Connecting
  unfolding rpc_socket
  rpc_connect pid ip port svc_name seqno s =
      let sub = ctable_new_subport s.ctr pid in
      elim (rpc_socket bytes_of ip port sub.1) [
        | none ↦ faults
        | some nep ↦ elim (crecord_create s.brk nep seqno) [
          | none ↦ faults
          | some c ↦
              let len = cp_size + 1 + length svc_name in
              let p = conn (cp_complete nep.subport cmd_connect seqno 1 1) svc_name in
              let c1 =
                crecord_set_state (crecord_set_payload c p len attempts ticks) st_connect_sent in
              waits nep s.brk
                (record s { ctable = ctable_insert c1 s.ctable; ctr = sub.0; brk = s.brk + 1 })
                (record { to = nep; packet = some p; size = len } ∷ [])
        ]
      ]

  -- `none` while the call goes on waiting. After a time-out the record leaves the table.
  unfoldable pub rpc_connect_resume : RpcEndpoint → ℕ → Srpc → Option Connecting
  unfolding deref
  rpc_connect_resume nep p s = elim (deref s.ctable nep p) [
    | none ↦ some faults
    | some cr ↦ elim (crecord_wait_for_state cr (st_idle ∷ st_timedout ∷ [])) [
      | none ↦ none
      | some st ↦ some (
          if st == st_timedout
          then returns none (record s { ctable = ctable_remove cr s.ctable }) []
          else returns (some nep) s [])
    ]
  ]

module _ ⦃net : ByteOrder⦄ where
  -- The state, the messages, and the address of the record that it waits for in state TIMEDOUT:
  -- an unknown connection is reported and left.
  unfoldable pub rpc_disconnect : RpcEndpoint → Srpc → Srpc × List Message × Option ℕ
  rpc_disconnect ep s = elim (ctable_lookup s.ctable ep) [
    | none ↦ (s, [], none)
    | some cr ↦
        let p = control (cp_complete ep.subport cmd_disconnect cr.seqno 1 1) in
        let c =
          crecord_set_state (crecord_set_payload cr p cp_size attempts ticks) st_disconnect_sent in
        (
          record s { ctable = store c s.ctable },
          record { to = ep; packet = some p; size = cp_size } ∷ [],
          some cr.self,
        )
  ]

  -- The wait for state TIMEDOUT, which the DACK or the timer sets: `some none` while it waits, and
  -- `none` for a read of a record that was purged.
  unfoldable pub rpc_disconnect_resume : RpcEndpoint → ℕ → Srpc → Option (Option ℕ)
  unfolding deref
  rpc_disconnect_resume ep p s = elim (deref s.ctable ep p) [
    | none ↦ none
    | some cr ↦ some (crecord_wait_for_state cr (st_timedout ∷ []))
  ]

  -- What rpc_query makes of the item that tsl_remove gives: the connection and the bytes stored in
  -- `qb`, whose number is the result. `none` is a read past the end of the item's block,
  -- be it of the data header or of the data.
  unfoldable pub rpc_query : Request → ℕ → Option (RpcEndpoint × List ℕ)
  rpc_query q len =
      let n = net.ntohs q.packet.dhdr.tlen in
      if ltb q.packet.size data_offset
      then none
      else if leb n len
      then (if leb n (length q.packet.bytes) then some (q.sender, take n q.packet.bytes) else none)
      else some (q.sender, [])
