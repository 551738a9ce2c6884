-- ===== src/Srpc/Serving/Safety.antt =====
-- srpc.c: a process that only serves, the services of its records, and the accesses of its reader.
use hwdb_opendpi.Srpc.Call.{rpc_response, rpc_response_resume}
use mathlib.Core.Path.{subst}
use hwdb_opendpi.Prelude.{ℕ, ◌≡◌, ◌≢◌, refl, ◌∙◌, Option, none, some, List, length}
use hwdb_opendpi.Endpoint.{ByteOrder, RpcEndpoint}
use hwdb_opendpi.Stable.{Stable, stable_size}
use hwdb_opendpi.Crecord.{CRecord, crecord_set_state}
use hwdb_opendpi.Ctable.{ctable_size, ctable_lookup, scan_record}
use hwdb_opendpi.Ctable.Holds.{Holds, Holds-store, Holds-ctable_insert, Holds-ctable_lookup}
use hwdb_opendpi.Ctable.Scanning.{scan_record-SameConnection}
use hwdb_opendpi.Srpc.{Srpc, Result, Queue, ok, fault}
use hwdb_opendpi.Srpc.Reader.{Arrival, Datagram, arrival, reader}
use hwdb_opendpi.Srpc.Reader.Keeps.{IsSrpc}
use hwdb_opendpi.Srpc.Reader.Effects.{
  IsSound, IsServing, Effect, faults, nothing, moves, accepts, opens,
}
use hwdb_opendpi.Srpc.Reader.Effects.Switch.{reader-Effect}
use hwdb_opendpi.Srpc.Reader.Safe.{IsHonest, reader_safe}
use hwdb_opendpi.Srpc.Timer.{timer}
use hwdb_opendpi.Srpc.Timer.Keeps.{timer-Holds}
use hwdb_opendpi.Srpc.Runs.{
  Act, reads, ticks, calls, resumes, ends, connects, connected, disconnects, responds, responded,
  goes_on, stops, Act-IsSrpc,
}
use hwdb_opendpi.Srpc.Runs.Blocks.{Act-Sound}
use hwdb_opendpi.Srpc.Call.Leaves.{
  Leaves, Resumes, rpc_response-Leaves, rpc_response_resume-Resumes,
}

module _ ⦃net : ByteOrder⦄ where
  -- A step of a process that calls no service itself.
  abbrev pub OnlyServes : {s t : Srpc} → Act s t → Type 0
  OnlyServes (reads fill d out whole e) = Unit {0}
  OnlyServes (ticks e) = Unit {0}
  OnlyServes (calls a ph p out whole e) = ⊥
  OnlyServes (resumes a ph ph' p p' out e) = ⊥
  OnlyServes (ends a ph p r out e) = ⊥
  OnlyServes (connects bytes_of pid ip port svc_name seqno nep p out short four e) = ⊥
  OnlyServes (connected bytes_of nep p r out e) = ⊥
  OnlyServes (disconnects ep whole e) = ⊥
  OnlyServes (responds ep message ph p out whole e) = Unit {0}
  OnlyServes (responded ep message r out whole e) = Unit {0}
  OnlyServes (goes_on ep message fnum nfrags p p' ph out e) = Unit {0}
  OnlyServes (stops ep message fnum nfrags p r out e) = Unit {0}

  -- Its runs. What its services do to their queues, and the offers of new ones, may leave any table
  -- of services behind.
  pub data ServerRun (s : Srpc) : Srpc → Type 0 where
    begins : ServerRun s s
    act : {t u : Srpc} → ServerRun s t → (x : Act t u) → OnlyServes x → ServerRun s u
    serves :
        {t u : Srpc}
        → ServerRun s t
        → (st : Stable Queue) → length st ≡ stable_size
        → record t { stable = st } ≡ u
        → ServerRun s u

  abbrev AllServe : Srpc → Type 0
  AllServe s = Holds IsServing s.ctable

  abbrev After : Result → Type 0
  After fault = Unit {0}
  After (ok t out) = AllServe t

  Effect-AllServe :
      (cmd : ℕ) (a : Arrival) (s : Srpc) (cr : Option CRecord) (x : Result)
      → length s.ctable ≡ ctable_size
      → AllServe s
      → ctable_lookup s.ctable a.ep ≡ cr
      → Effect cmd a s cr x
      → After x
  Effect-AllServe cmd a s cr fault wide h found faults = tt
  Effect-AllServe cmd a s cr (ok t out) wide h found nothing = h
  Effect-AllServe cmd a s (some c) (ok t out) wide h found (moves {c' = c'} n) =
      Holds-store IsServing s.ctable wide h c'
        (n.serving (Holds-ctable_lookup IsServing s.ctable wide h a.ep c found))
  Effect-AllServe cmd a s (some c) (ok t out) wide h found (accepts {c' = c'} n o low) =
      Holds-store IsServing s.ctable wide h c'
        (n.serving (Holds-ctable_lookup IsServing s.ctable wide h a.ep c found))
  Effect-AllServe cmd a s none (ok t out) wide h found (opens c' new) =
      Holds-ctable_insert IsServing s.ctable wide h c' new.serving

  same_service : (c c' : CRecord) → c'.svc ≡ c.svc → IsServing c → IsServing c'
  same_service c c' same (svc, i, has, indexed) = (svc, i, same ∙ has, indexed)

  timer-AllServe : (s : Srpc) → length s.ctable ≡ ctable_size → AllServe s → AllServe (timer s).0
  unfolding crecord_set_state
  timer-AllServe s wide h =
      timer-Holds IsServing s wide
        (λ c g.
          let same = scan_record-SameConnection c in same_service c (scan_record c).0 same.svc g)
        (λ c g. g) h

  module _ (s : Srpc) (wide : length s.ctable ≡ ctable_size) (h : AllServe s) where
    answering : (ep : RpcEndpoint) (message : List ℕ) → Leaves IsServing (rpc_response ep message s)
    answering ep message =
        rpc_response-Leaves IsServing (λ c c' sent g. same_service c c' sent.svc g)
          (λ c c' sent g. same_service c c' sent.svc g) ep message s wide h

    answering_on :
        (ep : RpcEndpoint) (message : List ℕ) (fnum nfrags p : ℕ)
        → Resumes IsServing (rpc_response_resume ep message fnum nfrags p s)
    answering_on ep message fnum nfrags p =
        rpc_response_resume-Resumes IsServing (λ c c' sent g. same_service c c' sent.svc g)
          (λ c c' sent g. same_service c c' sent.svc g) ep message s wide h fnum nfrags p

  Act-AllServe :
      {s t : Srpc} (x : Act s t)
      → OnlyServes x
      → length s.ctable ≡ ctable_size
      → AllServe s
      → AllServe t
  Act-AllServe {s} (reads fill d out whole e) only wide h =
      subst After e (Effect-AllServe _ (arrival d) s _ _ wide h refl (reader-Effect fill d s))
  Act-AllServe {s} (ticks e) only wide h = subst AllServe e (timer-AllServe s wide h)
  Act-AllServe (calls a ph p out whole e) only wide h = absurd only
  Act-AllServe (resumes a ph ph' p p' out e) only wide h = absurd only
  Act-AllServe (ends a ph p r out e) only wide h = absurd only
  Act-AllServe (connects bytes_of pid ip port svc_name seqno nep p out short four e) only wide h =
      absurd only
  Act-AllServe (connected bytes_of nep p r out e) only wide h = absurd only
  Act-AllServe (disconnects ep whole e) only wide h = absurd only
  Act-AllServe {s} (responds ep message ph p out whole e) only wide h =
      subst (Leaves IsServing) e (answering s wide h ep message)
  Act-AllServe {s} (responded ep message r out whole e) only wide h =
      subst (Leaves IsServing) e (answering s wide h ep message)
  Act-AllServe {s} (goes_on ep message fnum nfrags p p' ph out e) only wide h =
      subst (Resumes IsServing) e (answering_on s wide h ep message fnum nfrags p)
  Act-AllServe {s} (stops ep message fnum nfrags p r out e) only wide h =
      subst (Resumes IsServing) e (answering_on s wide h ep message fnum nfrags p)

  -- What holds of a server in each of its states.
  pub record IsServer (s : Srpc) : Type 0 where
    pub valid : IsSrpc s
    pub sound : Holds IsSound s.ctable
    pub serving : Holds IsServing s.ctable

  ServerRun-IsServer : (s t : Srpc) → IsServer s → ServerRun s t → IsServer t
  ServerRun-IsServer s t w begins = w
  ServerRun-IsServer s t w (act {t = m} run x only) =
      let w' = ServerRun-IsServer s m w run in
      record {
        valid = Act-IsSrpc x w'.valid;
        sound = Act-Sound x w'.valid.table.wide w'.sound;
        serving = Act-AllServe x only w'.valid.table.wide w'.serving;
      }
  ServerRun-IsServer s t w (serves {t = m} run st wide e) =
      let w' = ServerRun-IsServer s m w run in
      subst IsServer e (record {
        valid = record { table = w'.valid.table; alive = w'.valid.alive; services = wide };
        sound = w'.sound;
        serving = w'.serving;
      })

  -- In every state that a process which only serves can come to, in whatever order its threads take
  -- their steps and the datagrams arrive, from a well-formed state whose records hold their blocks
  -- and have their services: the reader handles a datagram without a fault if the datagram is
  -- shorter than the buffer, asks, in a CONNECT, for a name with an index, is, as a FRAGMENT, not
  -- longer than the message that it states, states, where it carries data, no more of it than the
  -- buffer holds, and, where the connection is putting a message together, lies in its block.
  pub server_safe :
      (s t : Srpc)
      → IsServer s
      → ServerRun s t
      → (fill : ℕ) (d : Datagram) → IsHonest d t
      → reader fill (some d) t ≢ fault
  server_safe s t w run fill d honest =
      let v = ServerRun-IsServer s t w run in
      reader_safe fill d t v.valid.alive honest
        (Holds-ctable_lookup IsSound t.ctable v.valid.table.wide v.sound (arrival d).ep)
        (Holds-ctable_lookup IsServing t.ctable v.valid.table.wide v.serving (arrival d).ep)
