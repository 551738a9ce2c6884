-- ===== src/Srpc/Runs/Blocks.antt =====
-- srpc.c: in every run a record that puts a message together holds the block for it, so that the
-- reader finds no NULL there.
use hwdb_opendpi.Prelude.{
  ℕ, ◌≡◌, ◌≢◌, refl, Bool, true, false, sym, ◌∙◌, Option, none, some, List, [], ◌∷◌, arith, length,
  ◌==◌, if◌then◌else◌, Option-cases, Bool-cases, inl, inr,
}
use mathlib.Core.Path.{subst}
use hwdb_opendpi.Endpoint.{ByteOrder, RpcEndpoint}
use hwdb_opendpi.Stable.{Name}
use hwdb_opendpi.Crecord.{
  CRecord, crecord_create, crecord_set_state, crecord_set_payload, crecord_wait_for_state,
  st_fack_sent, st_fragment_sent, st_response_sent, st_idle, st_timedout,
}
use hwdb_opendpi.Ctable.{ctable_remove, ctable_size, ctable_lookup}
use hwdb_opendpi.Ctable.Holds.{
  Holds, Holds-store, Holds-ctable_insert, Holds-ctable_remove, Holds-ctable_lookup,
}
use hwdb_opendpi.Ctable.Scanning.{scan_record-SameConnection}
use hwdb_opendpi.Srpc.{Srpc, Result, ok, fault}
use hwdb_opendpi.Srpc.Sending.{deref}
use hwdb_opendpi.Srpc.Reader.{Arrival, arrival}
use hwdb_opendpi.Srpc.Reader.Keeps.{IsSrpc}
use hwdb_opendpi.Srpc.Reader.Effects.{
  IsSound, sound_in, Effect, faults, nothing, moves, accepts, opens,
}
use hwdb_opendpi.Srpc.Reader.Effects.Switch.{reader-Effect}
use hwdb_opendpi.Srpc.Timer.{timer}
use hwdb_opendpi.Srpc.Timer.Keeps.{timer-Holds}
use hwdb_opendpi.Srpc.Interface.{
  Connecting, waits as connecting, returns as ended, faults as failed, rpc_socket, rpc_connect,
  rpc_connect_resume, rpc_disconnect,
}
use hwdb_opendpi.Srpc.Call.{rpc_response, rpc_response_resume}
use hwdb_opendpi.Srpc.Call.Leaves.{
  Leaves, Resumes, rpc_response-Leaves, rpc_response_resume-Resumes,
}
use hwdb_opendpi.Srpc.Runs.{
  Act, reads, ticks, calls, resumes, ends, connects, connected, disconnects, responds, responded,
  goes_on, stops, Reach, here, next, Reach-IsSrpc,
}
use hwdb_opendpi.Srpc.Runs.Calling.{Sound, sent-IsSound, rpc_call-Sound, rpc_call_resume-Sound}

module _ ⦃net : ByteOrder⦄ where
  abbrev After : Result → Type 0
  After fault = Unit {0}
  After (ok t out) = Sound t

  Effect-Sound :
      (cmd : ℕ) (a : Arrival) (s : Srpc) (cr : Option CRecord) (x : Result)
      → length s.ctable ≡ ctable_size
      → Sound s
      → ctable_lookup s.ctable a.ep ≡ cr
      → Effect cmd a s cr x
      → After x
  Effect-Sound cmd a s cr fault wide h found faults = tt
  Effect-Sound cmd a s cr (ok t out) wide h found nothing = h
  Effect-Sound cmd a s (some c) (ok t out) wide h found (moves {c' = c'} n) =
      Holds-store IsSound s.ctable wide h c'
        (n.sound (Holds-ctable_lookup IsSound s.ctable wide h a.ep c found))
  Effect-Sound cmd a s (some c) (ok t out) wide h found (accepts {c' = c'} n o low) =
      Holds-store IsSound s.ctable wide h c'
        (n.sound (Holds-ctable_lookup IsSound s.ctable wide h a.ep c found))
  Effect-Sound cmd a s none (ok t out) wide h found (opens c' new) =
      Holds-ctable_insert IsSound s.ctable wide h c' (λ e. absurd (idle c' (sym new.state ∙ e)))
    where
      idle : (c' : CRecord) → st_idle ≢ st_fack_sent
      idle c' = omega arith

  timer-Sound : (s : Srpc) → length s.ctable ≡ ctable_size → Sound s → Sound (timer s).0
  unfolding crecord_set_state
  timer-Sound s wide h =
      timer-Holds IsSound s wide
        (λ c sound e r.
          let same = scan_record-SameConnection c in sound (sym same.state ∙ e) (sym same.resp ∙ r))
        (λ c _. sound_in _ _ (omega arith)) h

  module _ (s : Srpc) (wide : length s.ctable ≡ ctable_size) (h : Sound s) where
    abbrev Connects : Connecting → Type 0
    Connects (connecting nep p t out) = Sound t
    Connects (ended r t out) = Sound t
    Connects failed = Unit {0}

    abbrev Connected : Option Connecting → Type 0
    Connected none = Unit {0}
    Connected (some x) = Connects x

    Connects-if :
        (b : Bool) (x y : Connecting) → Connects x → Connects y → Connects (if b then x else y)
    Connects-if true x y k l = k
    Connects-if false x y k l = l

    rpc_connect-Sound :
        (bytes_of : ℕ → List ℕ) (pid : ℕ) (ip : List ℕ) (port : ℕ) (svc_name : Name) (seqno : ℕ)
        → Connects (rpc_connect bytes_of pid (some ip) port svc_name seqno s)
    unfolding rpc_connect rpc_socket crecord_create crecord_set_state crecord_set_payload
    rpc_connect-Sound bytes_of pid ip port svc_name seqno = elim (Bool-cases (s.brk == 0)) [
      | inl e ↦ rw (e, rpc_connect) tt
      | inr e ↦
          rw (e, rpc_connect)
            (Holds-ctable_insert IsSound s.ctable wide h _ (sound_in _ _ (omega arith)))
    ]

    rpc_connect_resume-Sound :
        (bytes_of : ℕ → List ℕ) (nep : RpcEndpoint) (p : ℕ)
        → Connected (rpc_connect_resume bytes_of nep p s)
    unfolding rpc_connect_resume
    rpc_connect_resume-Sound bytes_of nep p = elim (Option-cases (deref s.ctable nep p)) [
      | inl e ↦ rw (e, rpc_connect_resume) tt
      | inr (cr, e) ↦ elim (Option-cases (crecord_wait_for_state cr (st_idle ∷ st_timedout ∷ []))) [
        | inl n ↦ rw (e, rpc_connect_resume, n) tt
        | inr (st, n) ↦
            rw (e, rpc_connect_resume, n)
              (Connects-if (st == st_timedout)
                (ended none (record s { ctable = ctable_remove cr s.ctable }) [])
                (ended (some nep) s []) (Holds-ctable_remove IsSound s.ctable wide h cr) h)
      ]
    ]

    rpc_disconnect-Sound : (ep : RpcEndpoint) → Sound (rpc_disconnect ep s).0
    unfolding rpc_disconnect crecord_set_state crecord_set_payload
    rpc_disconnect-Sound ep = elim (Option-cases (ctable_lookup s.ctable ep)) [
      | inl e ↦ rw (e, rpc_disconnect) h
      | inr (cr, e) ↦
          rw (e, rpc_disconnect)
            (Holds-store IsSound s.ctable wide h _ (sound_in _ _ (omega arith)))
    ]

    answering : (ep : RpcEndpoint) (message : List ℕ) → Leaves IsSound (rpc_response ep message s)
    answering ep message =
        rpc_response-Leaves IsSound
          (λ c c' sent _. sent-IsSound st_fragment_sent (omega arith) c c' sent)
          (λ c c' sent _. sent-IsSound st_response_sent (omega arith) c c' sent) ep message s wide h

    answering_on :
        (ep : RpcEndpoint) (message : List ℕ) (fnum nfrags p : ℕ)
        → Resumes IsSound (rpc_response_resume ep message fnum nfrags p s)
    answering_on ep message fnum nfrags p =
        rpc_response_resume-Resumes IsSound
          (λ c c' sent _. sent-IsSound st_fragment_sent (omega arith) c c' sent)
          (λ c c' sent _. sent-IsSound st_response_sent (omega arith) c c' sent) ep message s wide h
          fnum nfrags p

  pub Act-Sound : {s t : Srpc} → Act s t → length s.ctable ≡ ctable_size → Sound s → Sound t
  Act-Sound {s} (reads fill d out whole e) wide h =
      subst After e (Effect-Sound _ (arrival d) s _ _ wide h refl (reader-Effect fill d s))
  Act-Sound {s} (ticks e) wide h = subst Sound e (timer-Sound s wide h)
  Act-Sound {s} (calls a ph p out whole e) wide h =
      subst (Leaves IsSound) e (rpc_call-Sound s wide h a)
  Act-Sound {s} (resumes a ph ph' p p' out e) wide h =
      subst (Resumes IsSound) e (rpc_call_resume-Sound s wide h a ph p)
  Act-Sound {s} (ends a ph p r out e) wide h =
      subst (Resumes IsSound) e (rpc_call_resume-Sound s wide h a ph p)
  Act-Sound {s} (connects bytes_of pid ip port svc_name seqno nep p out short four e) wide h =
      subst (Connects s wide h) e (rpc_connect-Sound s wide h bytes_of pid ip port svc_name seqno)
  Act-Sound {s} (connected bytes_of nep p r out e) wide h =
      subst (Connected s wide h) e (rpc_connect_resume-Sound s wide h bytes_of nep p)
  Act-Sound {s} (disconnects ep whole e) wide h = subst Sound e (rpc_disconnect-Sound s wide h ep)
  Act-Sound {s} (responds ep message ph p out whole e) wide h =
      subst (Leaves IsSound) e (answering s wide h ep message)
  Act-Sound {s} (responded ep message r out whole e) wide h =
      subst (Leaves IsSound) e (answering s wide h ep message)
  Act-Sound {s} (goes_on ep message fnum nfrags p p' ph out e) wide h =
      subst (Resumes IsSound) e (answering_on s wide h ep message fnum nfrags p)
  Act-Sound {s} (stops ep message fnum nfrags p r out e) wide h =
      subst (Resumes IsSound) e (answering_on s wide h ep message fnum nfrags p)

  -- In whatever order the threads take their steps from a well-formed state in which it holds,
  -- every record whose message is being put together, which is one in state FACK_SENT, has the
  -- block for it in `resp`.
  pub Reach-IsSound :
      (s t : Srpc) → IsSrpc s → Holds IsSound s.ctable → Reach s t → Holds IsSound t.ctable
  Reach-IsSound s t v h here = h
  Reach-IsSound s t v h (next {t = m} r act) =
      Act-Sound act (Reach-IsSrpc s m v r).table.wide (Reach-IsSound s m v h r)
