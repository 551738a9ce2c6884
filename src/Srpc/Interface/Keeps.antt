-- ===== src/Srpc/Interface/Keeps.antt =====
-- srpc.c: the steps of rpc_connect, rpc_disconnect and rpc_response keep the invariant of the
-- shared state.
use hwdb_opendpi.Prelude.{
  ℕ, ◌≡◌, inl, inr, Bool, true, false, Option, none, some, List, [], ◌∷◌, ◌++◌, arith, length,
  length-append, replicate, ◌==◌, if◌then◌else◌, Option-cases, Bool-cases,
}
use hwdb_opendpi.Endpoint.{ByteOrder, RpcEndpoint, sockaddr_size}
use hwdb_opendpi.Stable.{Name}
use hwdb_opendpi.Crecord.{
  crecord_create, crecord_set_state, crecord_set_payload, crecord_wait_for_state, st_idle,
  st_timedout,
}
use hwdb_opendpi.Ctable.{ctable_lookup}
use hwdb_opendpi.Ctable.Invariant.{ctable_insert-IsTable, ctable_remove-IsTable}
use hwdb_opendpi.Ctable.Lookup.{ctable_lookup-Found}
use hwdb_opendpi.Srpc.{Srpc, Message}
use hwdb_opendpi.Srpc.Reader.Keeps.{IsSrpc}
use hwdb_opendpi.Srpc.Reader.Queries.{kept}
use hwdb_opendpi.Srpc.Sending.{deref}
use hwdb_opendpi.Srpc.Interface.{
  Connecting, waits, returns, faults, rpc_socket, rpc_connect, rpc_connect_resume, rpc_disconnect,
}

-- What every step of rpc_connect leaves behind.
pub data ConnectKeeps : Connecting → Type 0 where
  waiting :
      {nep : RpcEndpoint} {p : ℕ} {s : Srpc} {out : List Message}
      → IsSrpc s
      → ConnectKeeps (waits nep p s out)
  returned :
      {r : Option RpcEndpoint} {s : Srpc} {out : List Message}
      → IsSrpc s
      → ConnectKeeps (returns r s out)
  failed : ConnectKeeps faults

abbrev pub WaitKeeps : Option Connecting → Type 0
WaitKeeps none = Unit {0}
WaitKeeps (some r) = ConnectKeeps r

ConnectKeeps-if :
    (b : Bool) {x y : Connecting}
    → ConnectKeeps x
    → ConnectKeeps y
    → ConnectKeeps (if b then x else y)
ConnectKeeps-if true h k = h
ConnectKeeps-if false h k = k

module _ ⦃net : ByteOrder⦄ (bytes_of : ℕ → List ℕ) (short : (x : ℕ) → length (bytes_of x) ≡ 2) where
  -- The address that rpc_socket makes.
  whole :
      (port : ℕ) (ip : List ℕ)
      → length ip ≡ 4
      → length (bytes_of 2 ++ (bytes_of (net.htons port) ++ (ip ++ replicate 8 0))) ≡ sockaddr_size
  whole port ip four =
      let last = length-append ip (replicate 8 0) in
      let middle = length-append (bytes_of (net.htons port)) (ip ++ replicate 8 0) in
      let all = length-append (bytes_of 2) (bytes_of (net.htons port) ++ (ip ++ replicate 8 0)) in
      omega (arith, last, middle, all, short 2, short (net.htons port))

  pub rpc_connect-Keeps :
      (pid : ℕ) (ip : List ℕ) (port : ℕ) (svc_name : Name) (seqno : ℕ) (s : Srpc)
      → length ip ≡ 4
      → IsSrpc s
      → ConnectKeeps (rpc_connect bytes_of pid (some ip) port svc_name seqno s)
  unfolding rpc_connect rpc_socket crecord_create crecord_set_state crecord_set_payload
  rpc_connect-Keeps pid ip port svc_name seqno s four v = elim (Bool-cases (s.brk == 0)) [
    | inl e ↦ rw (e, rpc_connect) failed
    | inr e ↦
        rw (e, rpc_connect)
          (waiting (record {
            table =
                ctable_insert-IsTable s.brk _ s.ctable v.table (omega arith) (whole port ip four);
            alive = omega arith;
            services = v.services;
          }))
  ]

pub rpc_connect_resume-Keeps :
    ⦃net : ByteOrder⦄ (bytes_of : ℕ → List ℕ) (nep : RpcEndpoint) (p : ℕ) (s : Srpc)
    → IsSrpc s
    → WaitKeeps (rpc_connect_resume bytes_of nep p s)
unfolding rpc_connect_resume
rpc_connect_resume-Keeps bytes_of nep p s v = elim (Option-cases (deref s.ctable nep p)) [
  | inl e ↦ rw (e, rpc_connect_resume) failed
  | inr (cr, e) ↦ elim (Option-cases (crecord_wait_for_state cr (st_idle ∷ st_timedout ∷ []))) [
    | inl t ↦ rw (e, rpc_connect_resume, t) tt
    | inr (st, t) ↦
        rw (e, rpc_connect_resume, t)
          (ConnectKeeps-if (st == st_timedout)
            (returned (record {
              table = ctable_remove-IsTable s.brk cr s.ctable v.table;
              alive = v.alive;
              services = v.services;
            }))
            (returned v))
  ]
]

pub rpc_disconnect-IsSrpc :
    ⦃net : ByteOrder⦄ (ep : RpcEndpoint) (s : Srpc)
    → length ep.addr ≡ sockaddr_size
    → IsSrpc s
    → IsSrpc (rpc_disconnect ep s).0
unfolding rpc_disconnect crecord_set_state crecord_set_payload
rpc_disconnect-IsSrpc ep s whole v = elim (Option-cases (ctable_lookup s.ctable ep)) [
  | inl e ↦ rw (e, rpc_disconnect) v
  | inr (cr, e) ↦
      let w = (ctable_lookup-Found s.brk s.ctable v.table ep whole cr e).0.whole in
      rw (e, rpc_disconnect) (kept s _ w v)
]
