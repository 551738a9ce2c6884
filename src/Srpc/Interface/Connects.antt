-- ===== src/Srpc/Interface/Connects.antt =====
-- srpc.c: a connection that is made, from rpc_connect to its answer.
use hwdb_opendpi.Prelude.{
  ℕ, ◌+◌, ◌%◌, ◌^◌, ◌==◌, ◌<◌, ◌≡◌, refl, ◌∙◌, true, none, some, List, [], ◌∷◌, ◌++◌, arith, ltb,
  length, length-append, replicate, ==_of_eq, ==_of_ne,
}
use hwdb_opendpi.Endpoint.{ByteOrder, RpcEndpoint, sockaddr_size}
use hwdb_opendpi.Payload.{conn, cp_complete, cp_size, cmd_connect, cmd_cack, attempts, ticks}
use hwdb_opendpi.Stable.{Name}
use hwdb_opendpi.Crecord.{
  CRecord, crecord_create, crecord_set_state, crecord_set_payload, crecord_wait_for_state,
  matched_state, pings_before_purge, ticks_between_pings, st_idle, st_connect_sent,
}
use hwdb_opendpi.Ctable.{ctable_new_subport, ctable_lookup, ctable_insert, store}
use hwdb_opendpi.Ctable.Invariant.{ctable_insert-IsTable}
use hwdb_opendpi.Ctable.Lookup.{ctable_lookup-ctable_insert, home}
use hwdb_opendpi.Srpc.{Srpc, Message, ok, update}
use hwdb_opendpi.Srpc.Reader.{Datagram, arrival, buf_size, on_ack, dispatch, reader}
use hwdb_opendpi.Srpc.Reader.Keeps.{IsSrpc}
use hwdb_opendpi.Srpc.Call.Resumes.{deref-store}
use hwdb_opendpi.Srpc.Interface.{waits, returns, rpc_socket, rpc_connect, rpc_connect_resume}

module _ ⦃net : ByteOrder⦄ (bytes_of : ℕ → List ℕ) (pid : ℕ) (ip : List ℕ) (port : ℕ) (name : Name)
    (seqno : ℕ) (s : Srpc) where
  abbrev pub endpoint : RpcEndpoint
  endpoint = record {
    addr = bytes_of 2 ++ (bytes_of (net.htons port) ++ (ip ++ replicate 8 0));
    subport = (ctable_new_subport s.ctr pid).1;
  }

  abbrev pub connecting : CRecord
  connecting = record {
    self = s.brk;
    seqno = seqno;
    state = st_connect_sent;
    ep = endpoint;
    svc = none;
    pl = some (conn (cp_complete endpoint.subport cmd_connect seqno 1 1) name);
    resp = none;
    size = (cp_size + 1 + length name) % 2 ^ 32;
    nattempts = attempts;
    ticks = ticks;
    ticks_left = ticks;
    pings_til_purge = pings_before_purge;
    ticks_til_ping = ticks_between_pings;
    last_frag = 0;
  }

  abbrev pub begun : Srpc
  begun = record s {
    ctable = ctable_insert connecting s.ctable;
    ctr = (ctable_new_subport s.ctr pid).0;
    brk = s.brk + 1;
  }

  abbrev pub greeting : Message
  greeting = record { to = endpoint; packet = connecting.pl; size = cp_size + 1 + length name }

  rpc_connect-waits :
      0 < s.brk
      → rpc_connect bytes_of pid (some ip) port name seqno s
        ≡ waits endpoint s.brk begun (greeting ∷ [])
  unfolding rpc_connect rpc_socket crecord_create crecord_set_payload crecord_set_state
  rpc_connect-waits h = rw (==_of_ne s.brk 0 (omega arith), rpc_connect, crecord_create) refl

  module _ (v : IsSrpc s) (two : (x : ℕ) → length (bytes_of x) ≡ 2) (four : length ip ≡ 4) where
    whole : length endpoint.addr ≡ sockaddr_size
    whole = omega (
      arith,
      length-append (bytes_of 2) (bytes_of (net.htons port) ++ (ip ++ replicate 8 0)),
      length-append (bytes_of (net.htons port)) (ip ++ replicate 8 0),
      length-append ip (replicate {A = ℕ} 8 0),
      two 2,
      two (net.htons port),
    )

    begun-IsSrpc : IsSrpc begun
    begun-IsSrpc = record {
      table = ctable_insert-IsTable s.brk connecting s.ctable v.table (omega arith) whole;
      alive = omega arith;
      services = v.services;
    }

    begun_lookup : ctable_lookup begun.ctable endpoint ≡ some connecting
    begun_lookup =
        ctable_lookup-ctable_insert connecting s.ctable endpoint v.table.wide whole
        ∙ rw
            (
              ==_of_eq (home endpoint) (home endpoint) refl,
              ==_of_eq endpoint.subport endpoint.subport refl,
            )
            refl

    -- In a well-formed state, to a host with an address of four bytes: rpc_connect sends one
    -- CONNECT and waits. A CACK of its number from the endpoint that it was sent to, which fits
    -- the buffer, makes it return that endpoint, and the reader sends nothing.
    pub connect_returns :
        (fill : ℕ) (d : Datagram)
        → d.n < buf_size
        → net.ntohs d.payload.hdr.command ≡ cmd_cack
        → (arrival d).ep ≡ endpoint
        → (arrival d).seqno ≡ seqno
        → (rpc_connect bytes_of pid (some ip) port name seqno s
            ≡ waits endpoint s.brk begun (greeting ∷ []))
          × (s' : Srpc) × (reader fill (some d) begun ≡ ok s' [])
          × (rpc_connect_resume bytes_of endpoint s.brk s' ≡ some (returns (some endpoint) s' []))
    unfolding reader dispatch on_ack update rpc_connect_resume crecord_wait_for_state matched_state
        crecord_set_state
    connect_returns fill d fits command from num =
        let c' : CRecord = crecord_set_state connecting st_idle in
        let e : ltb d.n buf_size ≡ true = ground arith in
        let n : (arrival d).seqno == seqno ≡ true = ==_of_eq (arrival d).seqno seqno num in
        (
          rpc_connect-waits v.alive,
          record begun { ctable = store c' begun.ctable },
          rw (e, command, from, begun_lookup, n, on_ack) refl,
          rw
              (
                deref-store begun endpoint connecting c' begun-IsSrpc whole begun_lookup refl refl,
                rpc_connect_resume,
              )
              refl,
        )
