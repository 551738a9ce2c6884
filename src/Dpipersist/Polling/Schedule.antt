-- ===== src/Dpipersist/Polling/Schedule.antt =====
-- dpipersist.c, the polling loop: when a round ends its sleep, and what it asks for.
use hwdb_opendpi.Prelude.{
  ℕ, ◌+◌, ◌*◌, ◌<◌, ◌≡◌, inl, inr, false, arith, ltb, ◌==◌, Bool-cases, eq_of_==,
}
use hwdb_opendpi.Dpipersist.Polling.{TimeVal, Delay, negative, waits, time_delay}

abbrev pub micros : ℕ
micros = 1000000

-- Nanoseconds since the epoch.
abbrev pub nanos : TimeVal → ℕ
nanos t = (t.tv_sec * micros + t.tv_usec) * 1000

-- The sleep of a delay ends at the nanosecond `e`, or is refused if that time is past.
abbrev pub EndsAt : ℕ → TimeVal → Delay → Type 0
EndsAt e t negative = e < nanos t
EndsAt e t (waits sec nsec) =
    (nanos t + (sec * (micros * 1000) + nsec) ≡ e) × (nsec < micros * 1000)

pos_of_== : (n : ℕ) → n == 0 ≡ false → 0 < n
pos_of_== n h = ground arith

-- For a time of day in microseconds: the sleep ends exactly at the second `expected`, with a number
-- of nanoseconds that nanosleep takes, unless that second is past, and then it is refused.
pub time_delay-EndsAt :
    (expected : ℕ) (current : TimeVal)
    → current.tv_usec < micros
    → EndsAt (expected * (micros * 1000)) current (time_delay expected current)
unfolding time_delay
time_delay-EndsAt expected current h = elim (Bool-cases (current.tv_usec == 0)) [
  | inl e ↦
      let whole = eq_of_== current.tv_usec 0 e in
      elim (Bool-cases (ltb expected current.tv_sec)) [
        | inl t ↦ rw (e, t) (ground arith)
        | inr t ↦ rw (e, t) (ground arith, ground arith)
      ]
  | inr e ↦
      let part = pos_of_== current.tv_usec e in
      elim (Bool-cases (ltb expected (current.tv_sec + 1))) [
        | inl t ↦ rw (e, t) (ground arith)
        | inr t ↦ rw (e, t) (ground arith, ground arith)
      ]
]
