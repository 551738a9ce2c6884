-- ===== src/Srpc/Serving/Reads.antt =====
-- srpc.c, `reader`: a datagram that does not restart the connection's numbers leaves the connection
-- in service, and is turned down when its number has been served.
use hwdb_opendpi.Prelude.{
  ℕ, ◌+◌, ◌*◌, ◌<◌, ◌≡◌, ◌≢◌, refl, sym, ◌∙◌, true, Option, none, some, arith, length,
}
use hwdb_opendpi.Endpoint.{ByteOrder, RpcEndpoint, sockaddr_size}
use hwdb_opendpi.Payload.{cmd_connect}
use hwdb_opendpi.Crecord.{CRecord}
use hwdb_opendpi.Ctable.{ctable_lookup, store}
use hwdb_opendpi.Ctable.Holds.{Holds, Holds-store, Holds-ctable_lookup, Holds-ctable_insert}
use hwdb_opendpi.Ctable.Lookup.{same_key, same_key-home}
use hwdb_opendpi.Srpc.{Srpc, Result, ok, fault}
use hwdb_opendpi.Srpc.Reader.{Arrival}
use hwdb_opendpi.Srpc.Reader.Keeps.{Keeps, leaves}
use hwdb_opendpi.Srpc.Reader.Effects.{
  IsOrdinary, Next, Effect, faults, nothing, moves, accepts, opens,
}
use hwdb_opendpi.Srpc.Serving.{Guard, Serving, Onward-Guard, found_key, store-Guard}

-- A message that does not restart the connection's numbers: not SEQNO, which rpc_call sends to do
-- so, not QACK, which a server sends, and CONNECT only while the connection is known.
pub record IsRegular (cmd : ℕ) (known : Option CRecord) : Type 0 where
  pub ordinary : IsOrdinary cmd
  pub connected : cmd ≡ cmd_connect → known ≢ none

module _ ⦃net : ByteOrder⦄ (ep : RpcEndpoint) (p r : ℕ) (cmd : ℕ) (a : Arrival) (s : Srpc)
    (whole : length a.ep.addr ≡ sockaddr_size) (w : Serving ep p r s) where
  -- The connection stays in service.
  abbrev pub Stays : Result → Type 0
  Stays fault = Unit {0}
  Stays (ok t out) = Serving ep p r t

  moved :
      (c c' : CRecord)
      → ctable_lookup s.ctable a.ep ≡ some c
      → (same_key ep a.ep ≡ true → IsOrdinary cmd)
      → Next cmd c c'
      → Holds (Guard ep p r) (store c' s.ctable)
  moved c c' found plain n = Holds-store (Guard ep p r) s.ctable w.valid.table.wide w.only c' (
      Onward-Guard ep p r c c' n.self n.ep
        (λ k. n.goes (plain (sym (found_key s ep a.ep c w.valid whole found) ∙ k)))
        (Holds-ctable_lookup (Guard ep p r) s.ctable w.valid.table.wide w.only a.ep c found))

  pub Effect-Stays :
      (cr : Option CRecord) (x : Result)
      → ctable_lookup s.ctable a.ep ≡ cr
      → (same_key ep a.ep ≡ true → IsRegular cmd cr)
      → Keeps x
      → Effect cmd a s cr x
      → Stays x
  Effect-Stays cr fault found plain k faults = tt
  Effect-Stays cr (ok t out) found plain k nothing = w
  Effect-Stays (some c) (ok t out) found plain (leaves v) (moves n) = record {
    valid = v;
    only = moved c _ found (λ e. (plain e).ordinary) n;
  }
  Effect-Stays (some c) (ok t out) found plain (leaves v) (accepts n o low) = record {
    valid = v;
    only = moved c _ found (λ e. (plain e).ordinary) n;
  }
  Effect-Stays none (ok t out) found plain (leaves v) (opens c' new) = record {
    valid = v;
    only =
        Holds-ctable_insert (Guard ep p r) s.ctable w.valid.table.wide w.only c'
          (λ e. absurd ((plain (rw (← new.ep) e)).connected new.connect refl));
  }

  -- A datagram of a number below the rank changes no queue.
  abbrev pub Refuses : Result → Type 0
  Refuses fault = Unit {0}
  Refuses (ok t out) = t.stable ≡ s.stable

  pub Effect-Refuses :
      (cr : Option CRecord) (x : Result)
      → ctable_lookup s.ctable a.ep ≡ cr
      → same_key ep a.ep ≡ true
      → 2 * a.seqno < r
      → Effect cmd a s cr x
      → Refuses x
  Effect-Refuses cr fault found key served faults = tt
  Effect-Refuses cr (ok t out) found key served nothing = refl
  Effect-Refuses (some c) (ok t out) found key served (moves n) = refl
  Effect-Refuses none (ok t out) found key served (opens c' new) = refl
  Effect-Refuses (some c) (ok t out) found key served (accepts n o low) =
      let g = Holds-ctable_lookup (Guard ep p r) s.ctable w.valid.table.wide w.only a.ep c found in
      let (at, calm, up) = g (found_key s ep a.ep c w.valid whole found ∙ key) in
      absurd (omega (arith, up, (low calm).0, served))

module _ ⦃net : ByteOrder⦄ (ep : RpcEndpoint) (p : ℕ) (cmd : ℕ) (a : Arrival) (s : Srpc)
    (whole : length a.ep.addr ≡ sockaddr_size) (w : Serving ep p 0 s) where
  -- A datagram that changes a queue gives the connection the rank of its number.
  abbrev pub Takes : Result → Type 0
  Takes fault = Unit {0}
  Takes (ok t out) = t.stable ≢ s.stable → Serving ep p (2 * a.seqno + 1) t

  pub Effect-Takes :
      (cr : Option CRecord) (x : Result)
      → ctable_lookup s.ctable a.ep ≡ cr
      → same_key ep a.ep ≡ true
      → Keeps x
      → Effect cmd a s cr x
      → Takes x
  Effect-Takes cr fault found key k faults = tt
  Effect-Takes cr (ok t out) found key k nothing = λ changed. absurd (changed refl)
  Effect-Takes (some c) (ok t out) found key k (moves n) = λ changed. absurd (changed refl)
  Effect-Takes none (ok t out) found key k (opens c' new) = λ changed. absurd (changed refl)
  Effect-Takes (some c) (ok t out) found key (leaves v) (accepts {c' = c'} n o low) = λ _.
      let g = Holds-ctable_lookup (Guard ep p 0) s.ctable w.valid.table.wide w.only a.ep c found in
      let same : same_key ep c.ep ≡ true = found_key s ep a.ep c w.valid whole found ∙ key in
      let (at, calm, _) = g same in
      record {
        valid = v;
        only =
            store-Guard ep p (2 * a.seqno + 1) c' (n.self ∙ at) ((n.goes o calm).0)
              (omega (arith, (low calm).1)) s w.valid (rw n.ep (sym (same_key-home ep c.ep same)))
              w.only;
      }
