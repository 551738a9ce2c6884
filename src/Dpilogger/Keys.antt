-- ===== src/Dpilogger/Keys.antt =====
-- dpilogger.c, `get_osdpi_flow`: both directions of a connection have one key.
use hwdb_opendpi.Prelude.{ℕ, ◌≡◌, ◌≢◌, refl, inl, inr, true, false, List, arith, ltb, Bool-cases}
use hwdb_opendpi.Dpilogger.{Ends, flow_key}

-- The other direction.
abbrev pub answering : Ends → Ends
answering e = record { saddr = e.daddr; daddr = e.saddr; source = e.dest; dest = e.source }

-- Between two different addresses a packet and its answer have one flow key.
pub flow_key-answering :
    (inet_ntoa : ℕ → List ℕ) (name : List ℕ) (e : Ends)
    → e.saddr ≢ e.daddr
    → flow_key inet_ntoa name (answering e) ≡ flow_key inet_ntoa name e
unfolding flow_key
flow_key-answering inet_ntoa name e h = elim (Bool-cases (ltb e.saddr e.daddr)) [
  | inl l ↦ let r : ltb e.daddr e.saddr ≡ false = ground arith in rw (l, r) refl
  | inr l ↦ let r : ltb e.daddr e.saddr ≡ true = ground arith in rw (l, r) refl
]
