-- ===== src/Ctable/Backoff.antt =====
-- ctable.c and crecord.c: what a connection meets over a series of scans while no message arrives
-- for it: the retries with their doubling gaps, the pings, and the time-out.
use Prim.Native.Nat.add
use native.Mathlib.Nat.{pow-suc, mul_comm, mul_assoc}
use hwdb_opendpi.Prelude.{
  ℕ, zero, suc, ◌+◌, ◌-◌, ◌*◌, ◌%◌, ◌^◌, ◌<◌, ◌≤◌, ◌≡◌, ◌≢◌, refl, sym, ap, ◌∙◌, true, List, [],
  ◌∷◌, arith, ==_of_ne,
}
use hwdb_opendpi.Payload.{Packet, attempts, ticks}
use hwdb_opendpi.Crecord.{CRecord, crecord_set_payload, crecord_set_state, st_timedout}
use hwdb_opendpi.Ctable.{Verdict, keep, retry, timed, scan_record, is_sending, dec16}

-- The verdicts of `k` scans in a row.
unfoldable pub verdicts : ℕ → CRecord → List Verdict
verdicts zero cr = []
verdicts (suc k) cr = (scan_record cr).1 ∷ verdicts k (scan_record cr).0

-- `k` scans that leave the record alone, and then `vs`.
unfoldable pub quiet : ℕ → List Verdict → List Verdict
quiet zero vs = vs
quiet (suc k) vs = keep ∷ quiet k vs

-- A record that waits for an answer to its last message: `n` attempts and `t` ticks are left.
pub record IsSending (n t : ℕ) (cr : CRecord) : Type 0 where
  pub sending : is_sending cr.state ≡ true
  pub live : cr.state ≢ st_timedout
  pub nattempts : cr.nattempts ≡ n
  pub ticks : cr.ticks ≡ t

dec16-suc : (k : ℕ) → suc k < 2 ^ 16 → dec16 (suc k) ≡ k
dec16-suc k h = omega arith

-- The branch of `scan_record` for a sending record.
module _ (cr : CRecord) (sending : is_sending cr.state ≡ true) (live : cr.state ≢ st_timedout) where
  scan_quiet :
      (k : ℕ)
      → cr.ticks_left ≡ suc (suc k)
      → suc (suc k) < 2 ^ 16
      → scan_record cr ≡ (record cr { ticks_left = suc k }, keep)
  unfolding scan_record
  scan_quiet k left small =
      let e : dec16 cr.ticks_left ≡ suc k = ap dec16 left ∙ dec16-suc (suc k) small in
      rw (==_of_ne cr.state st_timedout live, sending, e, ==_of_ne (suc k) 0 (omega arith))

  scan_retry :
      (n : ℕ)
      → cr.ticks_left ≡ 1
      → cr.nattempts ≡ suc (suc n)
      → suc (suc n) < 2 ^ 16
      → scan_record cr ≡ (
        record cr {
          nattempts = suc n;
          ticks = cr.ticks * 2 % 2 ^ 16;
          ticks_left = cr.ticks * 2 % 2 ^ 16;
        },
        retry,
      )
  unfolding scan_record
  scan_retry n left more small =
      let e : dec16 cr.ticks_left ≡ 0 = ap dec16 left in
      let f : dec16 cr.nattempts ≡ suc n = ap dec16 more ∙ dec16-suc (suc n) small in
      rw (==_of_ne cr.state st_timedout live, sending, e, f, ==_of_ne (suc n) 0 (omega arith))

  scan_timed : cr.ticks_left ≡ 1 → cr.nattempts ≡ 1 → (scan_record cr).1 ≡ timed
  unfolding scan_record
  scan_timed left more =
      let e : dec16 cr.ticks_left ≡ 0 = ap dec16 left in
      let f : dec16 cr.nattempts ≡ 0 = ap dec16 more in
      rw (==_of_ne cr.state st_timedout live, sending, e, f)

sending_quiet :
    (k m : ℕ) (cr : CRecord)
    → is_sending cr.state ≡ true
    → cr.state ≢ st_timedout
    → cr.ticks_left ≡ suc k
    → suc k < 2 ^ 16
    → verdicts (k + m) cr ≡ quiet k (verdicts m (record cr { ticks_left = 1 }))
unfolding verdicts quiet
sending_quiet zero m cr sending live left small =
    let e : record cr { ticks_left = 1 } ≡ cr = cc left in rw (e, add.zero m)
sending_quiet (suc k) m cr sending live left small =
    rw (add.suc k m, verdicts, scan_quiet cr sending live k left small)
      (ap (◌∷◌ keep)
        (sending_quiet k m (record cr { ticks_left = suc k }) sending live refl (omega arith)))

-- What a record with `n` attempts and `t` ticks meets: `n - 1` retries, each gap twice the one
-- before, and at the end of the last gap the time-out.
unfoldable pub schedule : ℕ → ℕ → List Verdict
schedule zero t = []
schedule (suc zero) t = quiet (t - 1) (timed ∷ [])
schedule (suc (suc n)) t = quiet (t - 1) (retry ∷ schedule (suc n) (t * 2))

-- The scans until the time-out.
unfoldable pub span : ℕ → ℕ → ℕ
span zero t = 0
span (suc n) t = t + span n (t * 2)

one_verdict : (cr : CRecord) → verdicts 1 cr ≡ (scan_record cr).1 ∷ []
unfolding verdicts
one_verdict cr = refl

pub no_verdicts : (cr : CRecord) → verdicts 0 cr ≡ []
unfolding verdicts
no_verdicts cr = refl

pub more_verdicts :
    (k : ℕ) (cr : CRecord)
    → verdicts (suc k) cr ≡ (scan_record cr).1 ∷ verdicts k (scan_record cr).0
unfolding verdicts
more_verdicts k cr = refl

one-le-pow : (n : ℕ) → 1 ≤ 2 ^ n
one-le-pow zero = omega arith
one-le-pow (suc n) = omega (arith, pow-suc 2 n, one-le-pow n)

double_pow : (t n : ℕ) → t * 2 ^ suc n ≡ t * 2 * 2 ^ n
double_pow t n = rw (pow-suc 2 n, mul_comm (2 ^ n) 2) (sym (mul_assoc t 2 (2 ^ n)))

lt_of_mul : (a p m : ℕ) → a * p < m → 1 ≤ p → a < m
lt_of_mul a p m h k = grind arith

-- A record in a sending state that no message reaches is sent again after each gap of the
-- schedule and is timed out at its end, neither earlier nor later, as long as the doubled ticks
-- fit their 16 bits.
pub verdicts-schedule :
    (n t : ℕ) (cr : CRecord)
    → is_sending cr.state ≡ true
    → cr.state ≢ st_timedout
    → cr.nattempts ≡ suc n
    → cr.ticks ≡ t
    → cr.ticks_left ≡ t
    → 0 < t
    → t * 2 ^ n < 2 ^ 16
    → suc n < 2 ^ 16
    → verdicts (span (suc n) t) cr ≡ schedule (suc n) t
unfolding span schedule
verdicts-schedule zero t cr sending live more gap left pos small few =
    let e : span 1 t ≡ t - 1 + 1 = omega arith in
    let last : CRecord = record cr { ticks_left = 1 } in
    ap (λ k. verdicts k cr) e
    ∙ sending_quiet (t - 1) 1 cr sending live (left ∙ omega arith) (omega arith)
    ∙ ap (quiet (t - 1)) (one_verdict last ∙ rw (scan_timed last sending live refl more) refl)
verdicts-schedule (suc n) t cr sending live more gap left pos small few =
    let e : span (suc (suc n)) t ≡ t - 1 + suc (span (suc n) (t * 2)) = omega arith in
    let last : CRecord = record cr { ticks_left = 1 } in
    let double : t * 2 * 2 ^ n < 2 ^ 16 = rw (← double_pow t n) small in
    let unwrapped : t * 2 < 2 ^ 16 = lt_of_mul (t * 2) (2 ^ n) (2 ^ 16) double (one-le-pow n) in
    let next : CRecord = record cr {
      nattempts = suc n;
      ticks = cr.ticks * 2 % 2 ^ 16;
      ticks_left = cr.ticks * 2 % 2 ^ 16;
    } in
    let doubled : cr.ticks * 2 % 2 ^ 16 ≡ t * 2 = omega arith in
    ap (λ k. verdicts k cr) e
    ∙ sending_quiet (t - 1) (suc (span (suc n) (t * 2))) cr sending live (left ∙ omega arith)
        (omega arith)
    ∙ ap (quiet (t - 1)) (
        more_verdicts (span (suc n) (t * 2)) last
        ∙ rw (scan_retry last sending live n refl more few) (
            ap (◌∷◌ retry) (
              verdicts-schedule n (t * 2) next sending live refl doubled doubled (omega arith)
                double (omega arith))))

-- So a message sent with the constants of srpcdefs.h is sent again after 2, 6, 14, 30, 62 and 126
-- ticks, and the connection is timed out after 254, which is 5.08 seconds.
pub send_schedule :
    (cr : CRecord) (pl : Packet) (size st : ℕ)
    → is_sending st ≡ true
    → st ≢ st_timedout
    → verdicts 254 (crecord_set_state (crecord_set_payload cr pl size attempts ticks) st)
      ≡ quiet 1 (
          retry
          ∷ quiet 3 (
              retry
              ∷ quiet 7 (
                  retry
                  ∷ quiet 15
                      (retry ∷ quiet 31 (retry ∷ quiet 63 (retry ∷ quiet 127 (timed ∷ [])))))))
unfolding crecord_set_state crecord_set_payload span schedule
send_schedule cr pl size st sending live =
    verdicts-schedule 6 2 (crecord_set_state (crecord_set_payload cr pl size attempts ticks) st)
      sending live refl refl refl (omega arith) (omega arith) (omega arith)
