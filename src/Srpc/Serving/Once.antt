-- ===== src/Srpc/Serving/Once.antt =====
-- srpc.c: a server's run, and that it serves each number of a connection at most once. The steps
-- are those of the threads, without rpc_connect, rpc_call and rpc_disconnect, which only a client
-- uses.
use hwdb_opendpi.Prelude.{
  ℕ, ◌+◌, ◌*◌, ◌≤◌, ◌≡◌, ◌≢◌, refl, sym, ◌∙◌, true, some, List, arith, length,
}
use mathlib.Core.Path.{subst}
use hwdb_opendpi.Endpoint.{ByteOrder, RpcEndpoint, sockaddr_size, endpoint_complete}
use hwdb_opendpi.Stable.{Stable, stable_size}
use hwdb_opendpi.Crecord.{
  CRecord, crecord_set_state, st_timedout, st_fragment_sent, st_response_sent, st_fack_sent,
  st_query_sent, st_awaiting_response,
}
use hwdb_opendpi.Ctable.{ctable_lookup, scan_record}
use hwdb_opendpi.Ctable.Holds.{Holds}
use hwdb_opendpi.Ctable.Lookup.{same_key}
use hwdb_opendpi.Ctable.Scanning.{scan_record-SameConnection}
use hwdb_opendpi.Srpc.{Srpc, Message, Queue, ok}
use hwdb_opendpi.Srpc.Reader.{Datagram, arrival, reader}
use hwdb_opendpi.Srpc.Reader.Keeps.{reader-Keeps}
use hwdb_opendpi.Srpc.Reader.Effects.Switch.{reader-Effect}
use hwdb_opendpi.Srpc.Timer.{timer}
use hwdb_opendpi.Srpc.Timer.Keeps.{timer-Holds}
use hwdb_opendpi.Srpc.Runs.{
  Act, reads, ticks, calls, resumes, ends, connects, connected, disconnects, responds, responded,
  goes_on, stops, Act-IsSrpc,
}
use hwdb_opendpi.Srpc.Serving.{Guard, Serving, Onward-Guard}
use hwdb_opendpi.Srpc.Serving.Reads.{
  IsRegular, Stays, Refuses, Takes, Effect-Stays, Effect-Refuses, Effect-Takes,
}
use hwdb_opendpi.Srpc.Call.Leaves.{
  Sent, Leaves, Resumes, rpc_response-Leaves, rpc_response_resume-Resumes,
}

module _ ⦃net : ByteOrder⦄ (ep : RpcEndpoint) where
  -- A step of a process that only serves. Under the key `ep` nothing restarts the numbers.
  abbrev pub IsServers : {s t : Srpc} → Act s t → Type 0
  IsServers {s} (reads fill d out whole e) =
      same_key ep (arrival d).ep ≡ true
      → IsRegular (net.ntohs d.payload.hdr.command) (ctable_lookup s.ctable (arrival d).ep)
  IsServers (ticks e) = Unit {0}
  IsServers (calls a ph p out whole e) = ⊥
  IsServers (resumes a ph ph' p p' out e) = ⊥
  IsServers (ends a ph p r out e) = ⊥
  IsServers (connects bytes_of pid ip port svc_name seqno nep p out short four e) = ⊥
  IsServers (connected bytes_of nep p r out e) = ⊥
  IsServers (disconnects to whole e) = ⊥
  IsServers (responds to message ph p out whole e) = Unit {0}
  IsServers (responded to message r out whole e) = Unit {0}
  IsServers (goes_on to message fnum nfrags p p' ph out e) = Unit {0}
  IsServers (stops to message fnum nfrags p r out e) = Unit {0}

  -- A run: steps of the process, and requests that the services take from their queues, which may
  -- leave any queues behind.
  pub data Run (s : Srpc) : Srpc → Type 0 where
    start : Run s s
    act : {t u : Srpc} → Run s t → (x : Act t u) → IsServers x → Run s u
    take_request :
        {t u : Srpc}
        → Run s t
        → (st : Stable Queue) → length st ≡ stable_size
        → record t { stable = st } ≡ u
        → Run s u

  module _ (p r : ℕ) where
    timer-Serving : (s : Srpc) → Serving ep p r s → Holds (Guard ep p r) (timer s).0.ctable
    unfolding crecord_set_state
    timer-Serving s w =
        timer-Holds (Guard ep p r) s w.valid.table.wide
          (λ c g.
            let same = scan_record-SameConnection c in
            Onward-Guard ep p r c (scan_record c).0 same.self same.ep
              (λ _ v. (
                record {
                  not_sent = rw same.state v.not_sent;
                  not_awaiting = rw same.state v.not_awaiting;
                  small = rw same.seqno v.small;
                },
                rw (same.state, same.seqno) (omega arith),
              ))
              g)
          (λ c g.
            Onward-Guard ep p r c (crecord_set_state c st_timedout) refl refl
              (λ _ v. (
                record { not_sent = omega arith; not_awaiting = omega arith; small = v.small },
                ground arith,
              ))
              g)
          w.only

    -- Sending an answer does not lower the rank.
    sending :
        (st : ℕ)
        → st ≢ st_fack_sent
        → st ≢ st_query_sent
        → st ≢ st_awaiting_response
        → (c c' : CRecord) → Sent st c c'
        → Guard ep p r c
        → Guard ep p r c'
    sending st whole query awaiting c c' sent = Onward-Guard ep p r c c' sent.self sent.ep (λ _ v. (
      record {
        not_sent = λ e. query (sym sent.state ∙ e);
        not_awaiting = λ e. awaiting (sym sent.state ∙ e);
        small = omega (arith, v.small, sent.seqno);
      },
      let same = sent.seqno in let to = sent.state in ground arith,
    ))

    fragment_sent : (c c' : CRecord) → Sent st_fragment_sent c c' → Guard ep p r c → Guard ep p r c'
    fragment_sent = sending st_fragment_sent (omega arith) (omega arith) (omega arith)

    response_sent : (c c' : CRecord) → Sent st_response_sent c c' → Guard ep p r c → Guard ep p r c'
    response_sent = sending st_response_sent (omega arith) (omega arith) (omega arith)

    Act-Guard :
        {s t : Srpc} (x : Act s t) → IsServers x → Serving ep p r s → Holds (Guard ep p r) t.ctable
    unfolding endpoint_complete
    Act-Guard {s} (reads fill d out whole e) plain w =
        (subst (Stays ep p r (net.ntohs d.payload.hdr.command) (arrival d) s whole w) e (
          Effect-Stays ep p r (net.ntohs d.payload.hdr.command) (arrival d) s whole w _ _ refl plain
            (reader-Keeps fill (some d) s (λ g same. ground arith) w.valid)
            (reader-Effect fill d s))).only
    Act-Guard {s} (ticks e) plain w =
        subst (λ t. Holds (Guard ep p r) t.ctable) e (timer-Serving s w)
    Act-Guard (calls a ph q out whole e) plain w = absurd plain
    Act-Guard (resumes a ph ph' q q' out e) plain w = absurd plain
    Act-Guard (ends a ph q b out e) plain w = absurd plain
    Act-Guard (connects bytes_of pid ip port svc_name seqno nep q out short four e) plain w =
        absurd plain
    Act-Guard (connected bytes_of nep q b out e) plain w = absurd plain
    Act-Guard (disconnects to whole e) plain w = absurd plain
    Act-Guard {s} (responds to message ph q out whole e) plain w = subst (Leaves (Guard ep p r)) e (
        rpc_response-Leaves (Guard ep p r) fragment_sent response_sent to message s
          w.valid.table.wide w.only)
    Act-Guard {s} (responded to message b out whole e) plain w = subst (Leaves (Guard ep p r)) e (
        rpc_response-Leaves (Guard ep p r) fragment_sent response_sent to message s
          w.valid.table.wide w.only)
    Act-Guard {s} (goes_on to message fnum nfrags q q' ph out e) plain w =
        subst (Resumes (Guard ep p r)) e (
          rpc_response_resume-Resumes (Guard ep p r) fragment_sent response_sent to message s
            w.valid.table.wide w.only fnum nfrags q)
    Act-Guard {s} (stops to message fnum nfrags q b out e) plain w =
        subst (Resumes (Guard ep p r)) e (
          rpc_response_resume-Resumes (Guard ep p r) fragment_sent response_sent to message s
            w.valid.table.wide w.only fnum nfrags q)

    Run-Serving : (s t : Srpc) → Serving ep p r s → Run s t → Serving ep p r t
    Run-Serving s t w start = w
    Run-Serving s t w (act {t = m} run x plain) =
        let w' = Run-Serving s m w run in
        record { valid = Act-IsSrpc x w'.valid; only = Act-Guard x plain w' }
    Run-Serving s t w (take_request {t = m} run st wide e) =
        let w' = Run-Serving s m w run in
        subst (Serving ep p r) e (record {
          valid = record { table = w'.valid.table; alive = w'.valid.alive; services = wide };
          only = w'.only;
        })

  -- At most once, until the numbers of a connection start again. The connection is in service: its
  -- key `ep` has one record, which has no query of its own. When a datagram under the key has
  -- changed the queues of the services, then no datagram under the key with this sequence number or
  -- an earlier one changes a queue, after any run, without a fault, of a process that only serves,
  -- if in this run no SEQNO and no QACK arrives under the key, and no CONNECT while the key is
  -- unknown. (rpc_call sends SEQNO to start its numbers again, and a CONNECT behind a purge makes a
  -- new record.)
  pub served_once :
      (p fill : ℕ) (d : Datagram) (s s' : Srpc) (out : List Message)
      → Serving ep p 0 s
      → length d.sender ≡ sockaddr_size
      → same_key ep (arrival d).ep ≡ true
      → reader fill (some d) s ≡ ok s' out
      → s'.stable ≢ s.stable
      → (t : Srpc) → Run s' t
      → (fill' : ℕ) (d' : Datagram) (u : Srpc) (out' : List Message)
      → length d'.sender ≡ sockaddr_size
      → same_key ep (arrival d').ep ≡ true
      → (arrival d').seqno ≤ (arrival d).seqno
      → reader fill' (some d') t ≡ ok u out'
      → u.stable ≡ t.stable
  unfolding endpoint_complete
  served_once p fill d s s' out w whole key e changed t run fill' d' u out' whole' key' old e' =
      let cmd = net.ntohs d.payload.hdr.command in
      let cmd' = net.ntohs d'.payload.hdr.command in
      let r = 2 * (arrival d).seqno + 1 in
      let taken : Serving ep p r s' =
        subst (Takes ep p cmd (arrival d) s whole w) e
          (Effect-Takes ep p cmd (arrival d) s whole w _ _ refl key
            (reader-Keeps fill (some d) s (λ g same. ground arith) w.valid)
            (reader-Effect fill d s))
          changed in
      let still : Serving ep p r t = Run-Serving p r s' t taken run in
      subst (Refuses ep p r cmd' (arrival d') t whole' still) e' (
        Effect-Refuses ep p r cmd' (arrival d') t whole' still _ _ refl key' (omega (arith, old))
          (reader-Effect fill' d' t))
