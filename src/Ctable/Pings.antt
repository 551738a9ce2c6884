-- ===== src/Ctable/Pings.antt =====
-- ctable.c: the pings of a connection that rests, and its time-out.
use Prim.Native.Nat.add
use hwdb_opendpi.Prelude.{
  ℕ, zero, suc, ◌+◌, ◌-◌, ◌^◌, ◌<◌, ◌≡◌, ◌≢◌, refl, ap, ◌∙◌, false, List, [], ◌∷◌, arith, ==_of_ne,
}
use hwdb_opendpi.Crecord.{CRecord, st_timedout, ticks_between_pings}
use hwdb_opendpi.Ctable.{Verdict, keep, timed, ping, scan_record, is_sending, dec16}
use hwdb_opendpi.Ctable.Backoff.{verdicts, quiet, more_verdicts, no_verdicts}

module _ (cr : CRecord) (resting : is_sending cr.state ≡ false)
    (live : cr.state ≢ st_timedout) where
  scan_quiet :
      (k : ℕ)
      → cr.ticks_til_ping ≡ suc (suc k)
      → suc (suc k) < 2 ^ 16
      → scan_record cr ≡ (record cr { ticks_til_ping = suc k }, keep)
  unfolding scan_record
  scan_quiet k left small =
      let e : dec16 cr.ticks_til_ping ≡ suc k = ap dec16 left ∙ omega arith in
      rw (==_of_ne cr.state st_timedout live, resting, e, ==_of_ne (suc k) 0 (omega arith))

  scan_ping :
      (n : ℕ)
      → cr.ticks_til_ping ≡ 1
      → cr.pings_til_purge ≡ suc (suc n)
      → suc (suc n) < 2 ^ 16
      → scan_record cr
        ≡ (record cr { ticks_til_ping = ticks_between_pings; pings_til_purge = suc n }, ping)
  unfolding scan_record
  scan_ping n left more small =
      let e : dec16 cr.ticks_til_ping ≡ 0 = ap dec16 left in
      let f : dec16 cr.pings_til_purge ≡ suc n = ap dec16 more ∙ omega arith in
      rw (==_of_ne cr.state st_timedout live, resting, e, f, ==_of_ne (suc n) 0 (omega arith))

  scan_timed : cr.ticks_til_ping ≡ 1 → cr.pings_til_purge ≡ 1 → (scan_record cr).1 ≡ timed
  unfolding scan_record
  scan_timed left more =
      let e : dec16 cr.ticks_til_ping ≡ 0 = ap dec16 left in
      let f : dec16 cr.pings_til_purge ≡ 0 = ap dec16 more in
      rw (==_of_ne cr.state st_timedout live, resting, e, f)

resting_quiet :
    (k m : ℕ) (cr : CRecord)
    → is_sending cr.state ≡ false
    → cr.state ≢ st_timedout
    → cr.ticks_til_ping ≡ suc k
    → suc k < 2 ^ 16
    → verdicts (k + m) cr ≡ quiet k (verdicts m (record cr { ticks_til_ping = 1 }))
unfolding verdicts quiet
resting_quiet zero m cr resting live left small =
    let e : record cr { ticks_til_ping = 1 } ≡ cr = cc left in rw (e, add.zero m)
resting_quiet (suc k) m cr resting live left small =
    rw (add.suc k m, verdicts, scan_quiet cr resting live k left small)
      (ap (◌∷◌ keep)
        (resting_quiet k m (record cr { ticks_til_ping = suc k }) resting live refl (omega arith)))

-- `n` minutes without a message: a ping at the end of each but the last, and then the time-out.
pub ping_schedule : ℕ → List Verdict
ping_schedule zero = []
ping_schedule (suc zero) = quiet (ticks_between_pings - 1) (timed ∷ [])
ping_schedule (suc (suc n)) = quiet (ticks_between_pings - 1) (ping ∷ ping_schedule (suc n))

pub minutes : ℕ → ℕ
minutes zero = 0
minutes (suc n) = (ticks_between_pings - 1) + suc (minutes n)

-- A connection in a state that is neither sending nor timed out, with `n` pings left and a full
-- minute before the next, is pinged at the end of each of the next `n - 1` minutes and timed out
-- at the end of minute `n`, neither earlier nor later, if no message resets its counters.
pub verdicts-ping_schedule :
    (n : ℕ) (cr : CRecord)
    → is_sending cr.state ≡ false
    → cr.state ≢ st_timedout
    → cr.ticks_til_ping ≡ ticks_between_pings
    → cr.pings_til_purge ≡ suc n
    → suc n < 2 ^ 16
    → verdicts (minutes (suc n)) cr ≡ ping_schedule (suc n)
unfolding minutes ping_schedule
verdicts-ping_schedule zero cr resting live left more small =
    let last : CRecord = record cr { ticks_til_ping = 1 } in
    resting_quiet (ticks_between_pings - 1) 1 cr resting live left (omega arith)
    ∙ ap (quiet (ticks_between_pings - 1))
        (more_verdicts 0 last ∙ rw (scan_timed last resting live refl more, no_verdicts) refl)
verdicts-ping_schedule (suc n) cr resting live left more small =
    let last : CRecord = record cr { ticks_til_ping = 1 } in
    let next : CRecord = record cr {
      ticks_til_ping = ticks_between_pings;
      pings_til_purge = suc n;
    } in
    resting_quiet (ticks_between_pings - 1) (suc (minutes (suc n))) cr resting live left
      (omega arith)
    ∙ ap (quiet (ticks_between_pings - 1)) (
        more_verdicts (minutes (suc n)) last
        ∙ rw (scan_ping last resting live n refl more small)
            (ap (◌∷◌ ping) (verdicts-ping_schedule n next resting live refl refl (omega arith))))
