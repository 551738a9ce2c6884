-- ===== src/Srpc/Timer/Keeps.antt =====
-- srpc.c, `timer`: a tick keeps the invariant of the shared state.
use mathlib.Core.List.{reverse, reverse-cons}
use hwdb_opendpi.Prelude.{
  suc, ◌∙◌, Bool-cases, inl, inr, ℕ, ◌≡◌, List, [], ◌∷◌, length, get_or, All, All-append,
}
use hwdb_opendpi.Endpoint.{ByteOrder, sockaddr_size}
use hwdb_opendpi.Crecord.{CRecord, crecord_set_state, st_timedout}
use hwdb_opendpi.Ctable.{
  Table, ctable_size, scan_record, ctable_scan, ctable_remove, Verdict, timed,
}
use hwdb_opendpi.Ctable.Holds.{
  Holds, All-imp, Holds-store, Holds-ctable_remove, length-store, length-ctable_remove,
}
use hwdb_opendpi.Ctable.Invariant.{IsTable, InBucket, ctable_remove-IsTable, store-IsTable}
use hwdb_opendpi.Ctable.Scanning.{
  ctable_scan-IsTable, ctable_scan-listed, Holds-ctable_scan, length-ctable_scan, picked,
  picked_all, same_verdict, scan_record-SameConnection,
}
use hwdb_opendpi.Srpc.{Srpc}
use hwdb_opendpi.Srpc.Reader.Keeps.{IsSrpc}
use hwdb_opendpi.Srpc.Timer.{purge_all, time_out_all, timer}

purge_all-IsTable :
    (brk : ℕ) (crs : List CRecord) (t : Table) → IsTable brk t → IsTable brk (purge_all crs t)
unfolding purge_all
purge_all-IsTable brk [] t v = v
purge_all-IsTable brk (cr ∷ crs) t v =
    purge_all-IsTable brk crs (ctable_remove cr t) (ctable_remove-IsTable brk cr t v)

abbrev Whole : CRecord → Type 0
Whole c = length c.ep.addr ≡ sockaddr_size

time_out_all-IsTable :
    (brk : ℕ) (crs : List CRecord) (t : Table)
    → All Whole crs
    → IsTable brk t
    → IsTable brk (time_out_all crs t)
unfolding time_out_all crecord_set_state
time_out_all-IsTable brk [] t w v = v
time_out_all-IsTable brk (cr ∷ crs) t w v =
    time_out_all-IsTable brk crs _ w.1 (store-IsTable brk _ t w.0 v)

pub All-reverse : (P : CRecord → Type 0) (xs : List CRecord) → All P xs → All P (reverse xs)
All-reverse P [] h = tt
All-reverse P (x ∷ xs) h =
    rw (reverse-cons x xs) (All-append P (reverse xs) (x ∷ []) (All-reverse P xs h.1) (h.0, tt))

pub picked-All :
    (P : CRecord → Type 0) (v : Verdict) (ps : List CRecord)
    → ((p : CRecord) → P p → P (scan_record p).0)
    → All P ps
    → All P (picked v ps)
unfolding picked
picked-All P v [] stays h = tt
picked-All P v (p ∷ ps) stays h = elim (Bool-cases (same_verdict v (scan_record p).1)) [
  | inl e ↦ rw e (stays p h.0, picked-All P v ps stays h.1)
  | inr e ↦ rw e (picked-All P v ps stays h.1)
]

pub picked_all-All :
    (P : CRecord → Type 0) (v : Verdict) (t : Table)
    → ((p : CRecord) → P p → P (scan_record p).0)
    → ((i : ℕ) → All P (get_or t i []))
    → All P (picked_all v t)
picked_all-All P v [] stays h = tt
picked_all-All P v (b ∷ bs) stays h =
    All-append P (picked v b) (picked_all v bs) (picked-All P v b stays (h 0))
      (picked_all-All P v bs stays (λ i. h (suc i)))

-- The records that the scan times out have every property that it keeps.
timeds-All :
    (P : CRecord → Type 0) (t : Table)
    → ((p : CRecord) → P p → P (scan_record p).0)
    → Holds P t
    → All P (ctable_scan t).1.timeds
timeds-All P t stays h =
    rw (ctable_scan-listed timed t (λ e. cc))
      (All-reverse P (picked_all timed t) (picked_all-All P timed t stays h))

timeds-Whole : (brk : ℕ) (t : Table) → IsTable brk t → All Whole (ctable_scan t).1.timeds
timeds-Whole brk t v =
    timeds-All Whole t (λ p h. rw (scan_record-SameConnection p).ep h)
      (λ i. All-imp (InBucket brk i) Whole (get_or t i []) (λ _ h. h.whole) (v.placed i))

-- A tick of the timer keeps the invariant of the shared state.
pub timer-IsSrpc : ⦃net : ByteOrder⦄ → (s : Srpc) → IsSrpc s → IsSrpc (timer s).0
unfolding timer
timer-IsSrpc s v = record {
  table =
      time_out_all-IsTable s.brk (ctable_scan s.ctable).1.timeds _
        (timeds-Whole s.brk s.ctable v.table)
        (purge_all-IsTable s.brk (ctable_scan s.ctable).1.purges _
          (ctable_scan-IsTable s.brk s.ctable v.table));
  alive = v.alive;
  services = v.services;
}

module _ (P : CRecord → Type 0) where
  purge_all-Holds :
      (crs : List CRecord) (t : Table)
      → length t ≡ ctable_size
      → Holds P t
      → (length (purge_all crs t) ≡ ctable_size) × Holds P (purge_all crs t)
  unfolding purge_all
  purge_all-Holds [] t wide h = (wide, h)
  purge_all-Holds (cr ∷ crs) t wide h =
      purge_all-Holds crs (ctable_remove cr t) (length-ctable_remove cr t ∙ wide)
        (Holds-ctable_remove P t wide h cr)

  time_out_all-Holds :
      (crs : List CRecord) (t : Table)
      → length t ≡ ctable_size
      → ((p : CRecord) → P p → P (crecord_set_state p st_timedout))
      → All P crs
      → Holds P t
      → Holds P (time_out_all crs t)
  unfolding time_out_all
  time_out_all-Holds [] t wide ends a h = h
  time_out_all-Holds (cr ∷ crs) t wide ends a h =
      time_out_all-Holds crs _ (length-store _ t ∙ wide) ends a.1
        (Holds-store P t wide h (crecord_set_state cr st_timedout) (ends cr a.0))

  -- A tick keeps every property of the records that the scan of a record and its time-out keep.
  pub timer-Holds :
      ⦃net : ByteOrder⦄
      → (s : Srpc) → length s.ctable ≡ ctable_size
      → ((p : CRecord) → P p → P (scan_record p).0)
      → ((p : CRecord) → P p → P (crecord_set_state p st_timedout))
      → Holds P s.ctable
      → Holds P (timer s).0.ctable
  unfolding timer
  timer-Holds s wide stays ends h =
      let same : length (ctable_scan s.ctable).0 ≡ ctable_size =
        length-ctable_scan s.ctable ∙ wide in
      let (wide', h') =
        purge_all-Holds (ctable_scan s.ctable).1.purges (ctable_scan s.ctable).0 same
          (Holds-ctable_scan P s.ctable stays h) in
      time_out_all-Holds _ _ wide' ends (timeds-All P s.ctable stays h) h'
