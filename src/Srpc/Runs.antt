-- ===== src/Srpc/Runs.antt =====
-- srpc.c: the threads together. The reader, the timer and the threads that call the interface take
-- the table's mutex in any order; a step is what one of them does while it holds it.
pub mod Calling
pub mod Blocks
use mathlib.Core.Path.{subst}
use hwdb_opendpi.Prelude.{ℕ, ◌≡◌, Option, some, List, arith, length}
use hwdb_opendpi.Endpoint.{ByteOrder, RpcEndpoint, sockaddr_size}
use hwdb_opendpi.Srpc.{Srpc, Message, ok}
use hwdb_opendpi.Srpc.Reader.{Datagram, reader}
use hwdb_opendpi.Srpc.Reader.Keeps.{IsSrpc, Keeps, leaves, reader-Keeps}
use hwdb_opendpi.Srpc.Timer.{timer}
use hwdb_opendpi.Srpc.Timer.Keeps.{timer-IsSrpc}
use hwdb_opendpi.Srpc.Interface.{
  waits as connecting, returns as ended, rpc_connect, rpc_connect_resume, rpc_disconnect,
}
use hwdb_opendpi.Srpc.Interface.Keeps.{
  ConnectKeeps, waiting as begun, returned as finished, WaitKeeps, rpc_connect-Keeps,
  rpc_connect_resume-Keeps, rpc_disconnect-IsSrpc,
}
use hwdb_opendpi.Stable.{Name}
use hwdb_opendpi.Srpc.Call.{
  rpc_response, rpc_response_resume, Call, waits, returns, Phase, rpc_call, rpc_call_resume,
}
use hwdb_opendpi.Srpc.Call.Keeps.{
  StepKeeps, PauseKeeps, waiting, returned, rpc_call-Keeps, rpc_call_resume-Keeps,
  rpc_response-Keeps, rpc_response_resume-Keeps,
}

-- The shared state changes by a datagram that the reader handles, by a tick, or by what a call of
-- the interface does up to its next wait. `bytes_of` gives the two bytes of a number, and `ip` is
-- an address of four.
pub data Act ⦃net : ByteOrder⦄ (s t : Srpc) : Type 0 where
  reads :
      (fill : ℕ) (d : Datagram) (out : List Message)
      → length d.sender ≡ sockaddr_size
      → reader fill (some d) s ≡ ok t out
      → Act s t
  ticks : (timer s).0 ≡ t → Act s t
  calls :
      (a : Call) (ph : Phase) (p : ℕ) (out : List Message)
      → length a.ep.addr ≡ sockaddr_size
      → rpc_call a s ≡ waits ph p t out
      → Act s t
  resumes :
      (a : Call) (ph ph' : Phase) (p p' : ℕ) (out : List Message)
      → rpc_call_resume a ph p s ≡ some (waits ph' p' t out)
      → Act s t
  ends :
      (a : Call) (ph : Phase) (p : ℕ) (r : Option (List ℕ)) (out : List Message)
      → rpc_call_resume a ph p s ≡ some (returns r t out)
      → Act s t
  connects :
      (bytes_of : ℕ → List ℕ) (pid : ℕ) (ip : List ℕ) (port : ℕ) (svc_name : Name) (seqno : ℕ)
      (nep : RpcEndpoint) (p : ℕ) (out : List Message)
      → ((x : ℕ) → length (bytes_of x) ≡ 2)
      → length ip ≡ 4
      → rpc_connect bytes_of pid (some ip) port svc_name seqno s ≡ connecting nep p t out
      → Act s t
  connected :
      (bytes_of : ℕ → List ℕ) (nep : RpcEndpoint) (p : ℕ) (r : Option RpcEndpoint)
      (out : List Message)
      → rpc_connect_resume bytes_of nep p s ≡ some (ended r t out)
      → Act s t
  disconnects :
      (ep : RpcEndpoint) → length ep.addr ≡ sockaddr_size → (rpc_disconnect ep s).0 ≡ t → Act s t
  responds :
      (ep : RpcEndpoint) (message : List ℕ) (ph : Phase) (p : ℕ) (out : List Message)
      → length ep.addr ≡ sockaddr_size
      → rpc_response ep message s ≡ waits ph p t out
      → Act s t
  responded :
      (ep : RpcEndpoint) (message : List ℕ) (r : Option (List ℕ)) (out : List Message)
      → length ep.addr ≡ sockaddr_size
      → rpc_response ep message s ≡ returns r t out
      → Act s t
  goes_on :
      (ep : RpcEndpoint) (message : List ℕ) (fnum nfrags p p' : ℕ) (ph : Phase) (out : List Message)
      → rpc_response_resume ep message fnum nfrags p s ≡ some (waits ph p' t out)
      → Act s t
  stops :
      (ep : RpcEndpoint) (message : List ℕ) (fnum nfrags p : ℕ) (r : Option (List ℕ))
      (out : List Message)
      → rpc_response_resume ep message fnum nfrags p s ≡ some (returns r t out)
      → Act s t

pub data Reach ⦃net : ByteOrder⦄ (s : Srpc) : Srpc → Type 0 where
  here : Reach s s
  next : {t u : Srpc} → Reach s t → Act t u → Reach s u

ok_inv : {s : Srpc} {out : List Message} → Keeps (ok s out) → IsSrpc s
ok_inv (leaves v) = v

waits_inv :
    {ph : Phase} {p : ℕ} {s : Srpc} {out : List Message} → StepKeeps (waits ph p s out) → IsSrpc s
waits_inv (waiting v) = v

returns_inv :
    {r : Option (List ℕ)} {s : Srpc} {out : List Message} → StepKeeps (returns r s out) → IsSrpc s
returns_inv (returned v) = v

connecting_inv :
    {nep : RpcEndpoint} {p : ℕ} {s : Srpc} {out : List Message}
    → ConnectKeeps (connecting nep p s out)
    → IsSrpc s
connecting_inv (begun v) = v

ended_inv :
    {r : Option RpcEndpoint} {s : Srpc} {out : List Message}
    → ConnectKeeps (ended r s out)
    → IsSrpc s
ended_inv (finished v) = v

module _ ⦃net : ByteOrder⦄ where
  pub Act-IsSrpc : {s t : Srpc} → Act s t → IsSrpc s → IsSrpc t
  Act-IsSrpc {s} (reads fill d out whole e) v =
      ok_inv (subst Keeps e (reader-Keeps fill (some d) s (λ g same. ground arith) v))
  Act-IsSrpc {s} (ticks e) v = subst IsSrpc e (timer-IsSrpc s v)
  Act-IsSrpc {s} (calls a ph p out whole e) v =
      waits_inv (subst StepKeeps e (rpc_call-Keeps a s v whole))
  Act-IsSrpc {s} (resumes a ph ph' p p' out e) v =
      waits_inv (subst PauseKeeps e (rpc_call_resume-Keeps a ph p s v))
  Act-IsSrpc {s} (ends a ph p r out e) v =
      returns_inv (subst PauseKeeps e (rpc_call_resume-Keeps a ph p s v))
  Act-IsSrpc {s} (connects bytes_of pid ip port svc_name seqno nep p out short four e) v =
      connecting_inv (
        subst ConnectKeeps e (rpc_connect-Keeps bytes_of short pid ip port svc_name seqno s four v))
  Act-IsSrpc {s} (connected bytes_of nep p r out e) v =
      ended_inv (subst WaitKeeps e (rpc_connect_resume-Keeps bytes_of nep p s v))
  Act-IsSrpc {s} (disconnects ep whole e) v = subst IsSrpc e (rpc_disconnect-IsSrpc ep s whole v)
  Act-IsSrpc {s} (responds ep message ph p out whole e) v =
      waits_inv (subst StepKeeps e (rpc_response-Keeps ep message s v whole))
  Act-IsSrpc {s} (responded ep message r out whole e) v =
      returns_inv (subst StepKeeps e (rpc_response-Keeps ep message s v whole))
  Act-IsSrpc {s} (goes_on ep message fnum nfrags p p' ph out e) v =
      waits_inv (subst PauseKeeps e (rpc_response_resume-Keeps ep message s v fnum nfrags p))
  Act-IsSrpc {s} (stops ep message fnum nfrags p r out e) v =
      returns_inv (subst PauseKeeps e (rpc_response_resume-Keeps ep message s v fnum nfrags p))

  -- In whatever order datagrams arrive, the timer ticks, and rpc_connect, rpc_call, rpc_disconnect
  -- and rpc_response are called and go on, the shared state stays well-formed, as long as no step
  -- runs into a fault.
  pub Reach-IsSrpc : (s t : Srpc) → IsSrpc s → Reach s t → IsSrpc t
  Reach-IsSrpc s t v here = v
  Reach-IsSrpc s t v (next {t = m} r act) = Act-IsSrpc act (Reach-IsSrpc s m v r)
