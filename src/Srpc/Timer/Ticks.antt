-- ===== src/Srpc/Timer/Ticks.antt =====
-- srpc.c, `timer`: what a tick makes of each bucket of the table.
use mathlib.Core.List.{reverse, reverse-cons}
use hwdb_opendpi.Prelude.{
  ℕ, ◌+◌, ◌≡◌, ◌≢◌, refl, sym, ap, ◌∙◌, true, false, inl, inr, List, [], ◌∷◌, arith, length, get_or,
  All, ◌==◌, ==_of_eq, ==_of_ne, if◌then◌else◌, Bool-cases, map,
}
use hwdb_opendpi.Endpoint.{ByteOrder}
use hwdb_opendpi.Crecord.{CRecord, crecord_set_state, st_timedout}
use hwdb_opendpi.Ctable.{
  ctable_size, unlink, assign, Verdict, keep, retry, timed, ping, purge, scan_record, ctable_scan,
}
use hwdb_opendpi.Ctable.Holds.{All-imp}
use hwdb_opendpi.Ctable.Invariant.{Absent, Distinct, InBucket}
use hwdb_opendpi.Ctable.Lookup.{home}
use hwdb_opendpi.Ctable.Scanning.{
  picked, picked_all, same_verdict, scan_record-SameConnection, ctable_scan-listed, ctable_scan-map,
  length-ctable_scan, get_or-map,
}
use hwdb_opendpi.Srpc.{Srpc}
use hwdb_opendpi.Srpc.Reader.Keeps.{IsSrpc}
use hwdb_opendpi.Srpc.Timer.Keeps.{All-reverse, picked-All}
use hwdb_opendpi.Srpc.Timer.{timer}
use hwdb_opendpi.Srpc.Timer.Passes.{
  ending, drops, ends, passes, purge_all-bucket, time_out_all-bucket, passes-append, passes-picked,
}

abbrev aged : List CRecord → List CRecord
aged = map (λ p. (scan_record p).0)

-- What the removals leave of a bucket, and what a tick makes of it: a record that was TIMEDOUT
-- leaves, and of the others one whose attempts or pings are used up goes to TIMEDOUT.
unfoldable kept : List CRecord → List CRecord
kept [] = []
kept (p ∷ ps) =
    if same_verdict purge (scan_record p).1 then kept ps else (scan_record p).0 ∷ kept ps

unfoldable pub after_tick : List CRecord → List CRecord
after_tick [] = []
after_tick (p ∷ ps) =
    let rest = after_tick ps in
    let (c, v) = scan_record p in
    if p.state == st_timedout
    then rest
    else if same_verdict timed v
    then ending c ∷ rest
    else c ∷ rest

is_purged : (p : CRecord) → same_verdict purge (scan_record p).1 ≡ (p.state == st_timedout)
unfolding scan_record
is_purged p = ground arith

not_both : (v : Verdict) → same_verdict purge v ≡ true → same_verdict timed v ≡ false
not_both keep e = refl
not_both retry e = refl
not_both timed e = cc
not_both ping e = refl
not_both purge e = refl

-- A record at the head of a bucket stays there while records at other addresses are handled.
abbrev Elsewhere : ℕ → List CRecord → Type 0
Elsewhere q ps = All (λ p. p.self ≢ q) ps

module _ (i : ℕ) (r : CRecord) where
  drops-front :
      (ps rs : List CRecord)
      → Elsewhere r.self ps
      → passes drops i ps (r ∷ rs) ≡ r ∷ passes drops i ps rs
  unfolding unlink
  drops-front [] rs a = refl
  drops-front (p ∷ ps) rs a = elim (Bool-cases (home p.ep == i)) [
    | inl e ↦ rw (e, ==_of_ne p.self r.self a.0) (drops-front ps (unlink p.self rs) a.1)
    | inr e ↦ rw e (drops-front ps rs a.1)
  ]

  ends-front :
      (ps rs : List CRecord)
      → Elsewhere r.self ps
      → passes ends i ps (r ∷ rs) ≡ r ∷ passes ends i ps rs
  unfolding assign crecord_set_state
  ends-front [] rs a = refl
  ends-front (p ∷ ps) rs a = elim (Bool-cases (home p.ep == i)) [
    | inl e ↦ rw (e, ==_of_ne p.self r.self a.0) (ends-front ps (assign (ending p) rs) a.1)
    | inr e ↦ rw e (ends-front ps rs a.1)
  ]

Absent-Elsewhere : (q : ℕ) (ps : List CRecord) → Absent q ps → Elsewhere q ps
Absent-Elsewhere q [] a = tt
Absent-Elsewhere q (p ∷ ps) a = (λ e. a.0 (sym e), Absent-Elsewhere q ps a.1)

-- So do the records that the scan lists from the rest of the bucket.
picked-Elsewhere :
    (v : Verdict) (p : CRecord) (ps : List CRecord)
    → Absent p.self ps
    → Elsewhere (scan_record p).0.self (reverse (picked v ps))
picked-Elsewhere v p ps a = rw (scan_record-SameConnection p).self (
    All-reverse (λ c. c.self ≢ p.self) (picked v ps)
      (picked-All (λ c. c.self ≢ p.self) v ps (λ c ne. rw (scan_record-SameConnection c).self ne)
        (Absent-Elsewhere p.self ps a)))

module _ (i : ℕ) where
  drops-kept :
      (b : List CRecord)
      → Distinct b
      → All (λ p. home p.ep ≡ i) b
      → passes drops i (reverse (picked purge b)) (aged b) ≡ kept b
  unfolding picked kept unlink
  drops-kept [] d a = refl
  drops-kept (p ∷ ps) d a =
      let c = (scan_record p).0 in
      let front =
        drops-front i c (reverse (picked purge ps)) (aged ps) (picked-Elsewhere purge p ps d.0)
        ∙ ap (λ l. c ∷ l) (drops-kept ps d.1 a.1) in
      elim (Bool-cases (same_verdict purge (scan_record p).1)) [
        | inl e ↦
            rw (e, reverse-cons c (picked purge ps))
              (passes-append drops i (reverse (picked purge ps)) (c ∷ []) (c ∷ aged ps)
                ∙ ap (passes drops i (c ∷ [])) front
                ∙ rw
                    (
                      ==_of_eq (home c.ep) i (ap home (scan_record-SameConnection p).ep ∙ a.0),
                      ==_of_eq c.self c.self refl,
                    )
                    refl)
        | inr e ↦ rw e front
      ]

  ends-after_tick :
      (b : List CRecord)
      → Distinct b
      → All (λ p. home p.ep ≡ i) b
      → passes ends i (reverse (picked timed b)) (kept b) ≡ after_tick b
  unfolding picked kept after_tick assign crecord_set_state
  ends-after_tick [] d a = refl
  ends-after_tick (p ∷ ps) d a =
      let c = (scan_record p).0 in
      let rest = ends-after_tick ps d.1 a.1 in
      let front =
        ends-front i c (reverse (picked timed ps)) (kept ps) (picked-Elsewhere timed p ps d.0)
        ∙ ap (λ l. c ∷ l) rest in
      elim (Bool-cases (p.state == st_timedout)) [
        | inl e ↦
            let gone : same_verdict purge (scan_record p).1 ≡ true = is_purged p ∙ e in
            rw (e, gone, not_both (scan_record p).1 gone) rest
        | inr e ↦
            let stays : same_verdict purge (scan_record p).1 ≡ false = is_purged p ∙ e in
            elim (Bool-cases (same_verdict timed (scan_record p).1)) [
              | inl h ↦
                  rw (e, stays, h, reverse-cons c (picked timed ps))
                    (passes-append ends i (reverse (picked timed ps)) (c ∷ []) (c ∷ kept ps)
                      ∙ ap (passes ends i (c ∷ [])) front
                      ∙ rw
                          (
                            ==_of_eq (home c.ep) i
                                (ap home (scan_record-SameConnection p).ep ∙ a.0),
                            ==_of_eq c.self c.self refl,
                          )
                          refl)
              | inr h ↦ rw (e, stays, h) front
            ]
      ]

-- A tick, bucket by bucket: the records that were TIMEDOUT leave the table, the others stay in
-- their order with their counters as the scan leaves them, and those that the scan found to be
-- timed out go to TIMEDOUT.
pub timer-after_tick :
    ⦃net : ByteOrder⦄
    → (s : Srpc) (i : ℕ) → IsSrpc s
    → get_or (timer s).0.ctable i [] ≡ after_tick (get_or s.ctable i [])
unfolding timer
timer-after_tick s i v =
    let t = s.ctable in
    let b = get_or t i [] in
    let wide : length (ctable_scan t).0 ≡ ctable_size = length-ctable_scan t ∙ v.table.wide in
    let at : (j : ℕ) → All (λ p. home p.ep ≡ 0 + j) (get_or t j []) =
      λ j. placed j (get_or t j []) (v.table.placed j) in
    let here : All (λ p. home p.ep ≡ i) b =
      All-imp (InBucket s.brk i) (λ p. home p.ep ≡ i) b (λ p h. h.home) (v.table.placed i) in
    let purges : (ctable_scan t).1.purges ≡ reverse (picked_all purge t) =
      ctable_scan-listed purge t (λ e. cc) in
    let timeds : (ctable_scan t).1.timeds ≡ reverse (picked_all timed t) =
      ctable_scan-listed timed t (λ e. cc) in
    let scanned_bucket : get_or (ctable_scan t).0 i [] ≡ aged b =
      rw (ctable_scan-map t) (get_or-map aged t i refl) in
    let (wide', dropped) = purge_all-bucket i (ctable_scan t).1.purges (ctable_scan t).0 wide in
    time_out_all-bucket i (ctable_scan t).1.timeds _ wide'
    ∙ ap (passes ends i (ctable_scan t).1.timeds) dropped
    ∙ rw (timeds, purges, scanned_bucket)
        (passes-picked ends i timed 0 i t _ at (omega arith)
          ∙ ap (passes ends i (reverse (picked timed b))) (
              passes-picked drops i purge 0 i t (aged b) at (omega arith)
              ∙ drops-kept i b (v.table.distinct i) here)
          ∙ ends-after_tick i b (v.table.distinct i) here)
  where
    placed : (j : ℕ) (b : List CRecord) → All (InBucket s.brk j) b → All (λ p. home p.ep ≡ 0 + j) b
    placed j b h =
        All-imp (InBucket s.brk j) (λ p. home p.ep ≡ 0 + j) b (λ p k. omega (arith, k.home)) h
