-- ===== src/Srpc/Serving/Opening.antt =====
-- srpc.c, `reader`: the CONNECT that brings a connection into service.
use hwdb_opendpi.Prelude.{
  false, ℕ, ◌+◌, ◌^◌, ◌<◌, ◌≡◌, ◌≢◌, refl, sym, ◌∙◌, true, Option, none, some, List, [], ◌∷◌, arith,
  length, get_or, All, ltb, ◌==◌, ==_of_ne, if◌then◌else◌,
}
use mathlib.Core.Path.{subst}
use native.Mathlib.Decide.{ℕ_discrete}
use hwdb_opendpi.Endpoint.{
  ByteOrder, RpcEndpoint, sockaddr_size, endpoint_complete, endpoint_duplicate,
}
use hwdb_opendpi.Payload.{cmd_connect, cmd_cack, control, cp_complete, cp_size, attempts, ticks}
use hwdb_opendpi.Stable.{SRecord, stable_lookup}
use hwdb_opendpi.Crecord.{
  CRecord, st_idle, crecord_create, crecord_set_state, crecord_set_payload, crecord_set_service,
}
use hwdb_opendpi.Ctable.{find, ctable_lookup, ctable_insert}
use hwdb_opendpi.Ctable.Holds.{Holds, Holds-ctable_insert}
use hwdb_opendpi.Ctable.Invariant.{InBucket, IsTable, ctable_insert-IsTable}
use hwdb_opendpi.Ctable.Lookup.{
  same_key, ctable_lookup-ctable_insert, same_key_refl, home, same_key-subport, find-cons,
}
use hwdb_opendpi.Srpc.{Srpc, Queue, ok}
use hwdb_opendpi.Srpc.Reader.{
  Arrival, Datagram, arrival, buf_size, ctl_one, connect_new, on_connect, dispatch, reader,
}
use hwdb_opendpi.Srpc.Reader.Keeps.{IsSrpc}
use hwdb_opendpi.Srpc.Serving.{Guard, Serving, other_bucket}

if_none :
    (q a : ℕ) (x : CRecord) (o : Option CRecord)
    → (if q == a then some x else o) ≡ none
    → (q ≢ a) × (o ≡ none)
if_none q a x o h = ground arith

crecord_create_lem :
    (p : ℕ) (ep : RpcEndpoint) (n : ℕ)
    → p ≢ 0
    → (c : CRecord) × (crecord_create p ep n ≡ some c) × (c.self ≡ p) × (c.ep ≡ ep) × (c.seqno ≡ n)
unfolding crecord_create
crecord_create_lem p ep n alive = rw (==_of_ne p 0 alive) (_, refl, refl, refl, refl)

-- A search that fails meets no record with the subport.
module _ (ep : RpcEndpoint) (whole : length ep.addr ≡ sockaddr_size) where
  unknown :
      (p r brk i : ℕ) (rs : List CRecord)
      → All (InBucket brk i) rs
      → find ep rs ≡ none
      → All (Guard ep p r) rs
  unknown p r brk i [] b e = tt
  unknown p r brk i (x ∷ rs) b e =
      let (differ, rest) =
        if_none ep.subport x.ep.subport x (find ep rs) (sym (find-cons ep x rs whole) ∙ e) in
      (λ k. absurd (differ (same_key-subport ep x.ep k)), unknown p r brk i rs b.1 rest)

  unknown-Holds :
      (p r : ℕ) (s : Srpc)
      → IsSrpc s
      → ctable_lookup s.ctable ep ≡ none
      → Holds (Guard ep p r) s.ctable
  unfolding ctable_lookup
  unknown-Holds p r s v e i = elim (ℕ_discrete (home ep) i) [
    | yes at ↦ unknown p r s.brk i (get_or s.ctable i []) (v.table.placed i) (rw (← at) e)
    | no ne ↦
        other_bucket ep p r s.brk i (get_or s.ctable i []) (λ e. ne (sym e)) (v.table.placed i)
  ]

module _ ⦃net : ByteOrder⦄ where
  -- The record that a lookup under the key of the CONNECT `d` finds: it stands at the next free
  -- address, is idle, has the CONNECT's number and peer, and serves `sv`. The other keys keep what
  -- they had.
  pub record Opened (d : Datagram) (sv : SRecord Queue) (s s' : Srpc) : Type 0 where
    pub cr : CRecord
    pub found : ctable_lookup s'.ctable (arrival d).ep ≡ some cr
    pub self : cr.self ≡ s.brk
    pub state : cr.state ≡ st_idle
    pub seqno : cr.seqno ≡ (arrival d).seqno
    pub peer : cr.ep ≡ (arrival d).ep
    pub svc : cr.svc ≡ some sv.s_name
    pub others :
        (q : RpcEndpoint)
        → length q.addr ≡ sockaddr_size
        → same_key q (arrival d).ep ≡ false
        → ctable_lookup s'.ctable q ≡ ctable_lookup s.ctable q

  -- A CONNECT that fits the buffer, for an offered service, under a key that is not known, in a
  -- well-formed state: it is answered by one CACK and opens a connection in service. A lookup under
  -- the key then finds its record, at the next free address, idle, with the number and the service
  -- of the CONNECT, and any other key looks up what it did before.
  pub connect_serves :
      (fill : ℕ) (d : Datagram) (s : Srpc) (sv : SRecord Queue)
      → IsSrpc s
      → length d.sender ≡ sockaddr_size
      → d.n < buf_size
      → net.ntohs d.payload.hdr.command ≡ cmd_connect
      → stable_lookup s.stable d.sname ≡ some (some sv)
      → ctable_lookup s.ctable (arrival d).ep ≡ none
      → (s' : Srpc) × (reader fill (some d) s
          ≡ ok s' (
              record {
                to = (arrival d).ep;
                packet =
                    some
                      (control (cp_complete (arrival d).ep.subport cmd_cack (arrival d).seqno 1 1));
                size = cp_size;
              }
              ∷ []))
        × Serving (arrival d).ep s.brk 0 s'
        × Opened d sv s s'
  unfolding reader dispatch on_connect connect_new crecord_set_state crecord_set_payload
      crecord_set_service endpoint_complete endpoint_duplicate
  connect_serves fill d s sv v whole fits command offered new =
      let a : Arrival = arrival d in
      let f : ltb d.n buf_size ≡ true = ground arith in
      let (c, made, at, key, number) =
        crecord_create_lem s.brk a.ep a.seqno (omega (arith, v.alive)) in
      let c' : CRecord =
        crecord_set_state
          (crecord_set_service
            (crecord_set_payload c (ctl_one a.ep cmd_cack a) cp_size attempts ticks) sv.s_name)
          st_idle in
      let small : c.seqno < 2 ^ 32 = omega (arith, number, net.ntohl-lt d.payload.hdr.seqno) in
      (
        record s { ctable = ctable_insert c' s.ctable; brk = s.brk + 1 },
        rw (f, command, on_connect, offered, new, connect_new, made, key) refl,
        record {
          valid = record {
            table =
                subst (λ x. IsTable (x + 1) (ctable_insert c' s.ctable)) at
                  (ctable_insert-IsTable s.brk c' s.ctable v.table (omega (arith, at))
                    (rw key whole));
            alive = omega arith;
            services = v.services;
          };
          only =
              Holds-ctable_insert (Guard a.ep s.brk 0) s.ctable v.table.wide
                (unknown-Holds a.ep whole s.brk 0 s v new) c'
                (λ k. (
                  at,
                  record { not_sent = omega arith; not_awaiting = omega arith; small = small },
                  omega arith,
                ));
        },
        record {
          cr = c';
          found =
              ctable_lookup-ctable_insert c' s.ctable a.ep v.table.wide whole
              ∙ rw (key, same_key_refl a.ep) refl;
          self = at;
          state = refl;
          seqno = number;
          peer = key;
          svc = refl;
          others = λ q full differ.
              ctable_lookup-ctable_insert c' s.ctable q v.table.wide full ∙ rw (key, differ) refl;
        },
      )
