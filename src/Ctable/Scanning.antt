-- ===== src/Ctable/Scanning.antt =====
-- ctable.c: the scan visits every record once, keeps the table and its records' identities.
use hwdb_opendpi.Prelude.{
  ℕ, zero, suc, ◌≡◌, ◌≢◌, refl, sym, ap, ◌∙◌, Bool, true, false, List, [], ◌∷◌, ◌++◌, arith, length,
  get_or, All, map, append_assoc, append-nil, Bool-cases, inl, inr, if◌then◌else◌,
}
use mathlib.Core.Path.{subst}
use mathlib.Core.List.{reverse, reverse-cons, reverse-append}
use hwdb_opendpi.Crecord.{CRecord}
use hwdb_opendpi.Ctable.{
  Table, Scan, Verdict, keep, retry, timed, ping, purge, scan_record, scan_bucket, scan_buckets,
  ctable_scan, thread,
}
use hwdb_opendpi.Ctable.Holds.{Holds}
use hwdb_opendpi.Ctable.Invariant.{Absent, Distinct, InBucket, IsTable}

-- What the scan leaves alone in a record.
pub record SameConnection (a b : CRecord) : Type 0 where
  pub self : a.self ≡ b.self
  pub ep : a.ep ≡ b.ep
  pub seqno : a.seqno ≡ b.seqno
  pub state : a.state ≡ b.state
  pub pl : a.pl ≡ b.pl
  pub resp : a.resp ≡ b.resp
  pub svc : a.svc ≡ b.svc
  pub size : a.size ≡ b.size
  pub last_frag : a.last_frag ≡ b.last_frag

-- The scan of one record changes nothing but its counters.
pub scan_record-SameConnection : (p : CRecord) → SameConnection (scan_record p).0 p
unfolding scan_record
scan_record-SameConnection p = ground arith

-- The chain behind the scan is the old one, record by record.
pub scan_bucket-map :
    (ps : List CRecord) (s : Scan) → (scan_bucket ps s).0 ≡ map (λ p. (scan_record p).0) ps
unfolding scan_bucket
scan_bucket-map [] s = refl
scan_bucket-map (p ∷ ps) s = rw (scan_bucket-map ps (thread (scan_record p) s))

scan_buckets-map :
    (t : Table) (s : Scan) → (scan_buckets t s).0 ≡ map (map (λ p. (scan_record p).0)) t
unfolding scan_buckets
scan_buckets-map [] s = refl
scan_buckets-map (b ∷ bs) s = rw (scan_bucket-map b s, scan_buckets-map bs (scan_bucket b s).1)

-- The scan applies `scan_record` to every record of the table, in place.
pub ctable_scan-map : (t : Table) → (ctable_scan t).0 ≡ map (map (λ p. (scan_record p).0)) t
unfolding ctable_scan
ctable_scan-map t = scan_buckets-map t _

pub get_or-map {ℓ κ} :
    {A : Type ℓ} {B : Type κ} (f : List A → List B) (t : List (List A)) (i : ℕ)
    → f [] ≡ []
    → get_or (map f t) i [] ≡ f (get_or t i [])
get_or-map f [] i e = sym e
get_or-map f (x ∷ t) zero e = refl
get_or-map f (x ∷ t) (suc i) e = get_or-map f t i e

length-map {ℓ κ} : {A : Type ℓ} {B : Type κ} (f : A → B) (t : List A) → length (map f t) ≡ length t
length-map f [] = refl
length-map f (x ∷ t) = ap suc (length-map f t)

abbrev aged : List CRecord → List CRecord
aged = map (λ p. (scan_record p).0)

aged-All :
    (P : CRecord → Type 0) (ps : List CRecord)
    → ((p : CRecord) → P p → P (scan_record p).0)
    → All P ps
    → All P (aged ps)
aged-All P [] stays a = tt
aged-All P (p ∷ ps) stays a = (stays p a.0, aged-All P ps stays a.1)

aged-InBucket :
    (brk i : ℕ) (ps : List CRecord) → All (InBucket brk i) ps → All (InBucket brk i) (aged ps)
aged-InBucket brk i ps a =
    aged-All (InBucket brk i) ps
      (λ p h.
        let same = scan_record-SameConnection p in
        record {
          home = rw same.ep h.home;
          allocated = rw same.self h.allocated;
          whole = rw same.ep h.whole;
        })
      a

aged-Absent : (q : ℕ) (ps : List CRecord) → Absent q ps → Absent q (aged ps)
aged-Absent q [] a = tt
aged-Absent q (p ∷ ps) a = (rw (scan_record-SameConnection p).self a.0, aged-Absent q ps a.1)

aged-Distinct : (ps : List CRecord) → Distinct ps → Distinct (aged ps)
aged-Distinct [] d = tt
aged-Distinct (p ∷ ps) d =
    (rw (scan_record-SameConnection p).self (aged-Absent p.self ps d.0), aged-Distinct ps d.1)

pub length-ctable_scan : (t : Table) → length (ctable_scan t).0 ≡ length t
length-ctable_scan t = rw (ctable_scan-map t) (length-map aged t)

-- The scan keeps the table well-formed.
pub ctable_scan-IsTable : (brk : ℕ) (t : Table) → IsTable brk t → IsTable brk (ctable_scan t).0
ctable_scan-IsTable brk t valid = subst (IsTable brk) (sym (ctable_scan-map t)) (record {
  wide = length-map aged t ∙ valid.wide;
  placed =
      λ i. rw (get_or-map aged t i refl) (aged-InBucket brk i (get_or t i []) (valid.placed i));
  distinct = λ i. rw (get_or-map aged t i refl) (aged-Distinct (get_or t i []) (valid.distinct i));
})

-- The scan keeps every property of the records that `scan_record` keeps.
pub Holds-ctable_scan :
    (P : CRecord → Type 0) (t : Table)
    → ((p : CRecord) → P p → P (scan_record p).0)
    → Holds P t
    → Holds P (ctable_scan t).0
Holds-ctable_scan P t stays h =
    subst (Holds P) (sym (ctable_scan-map t))
      (λ i. rw (get_or-map aged t i refl) (aged-All P (get_or t i []) stays (h i)))

-- The records of a chain to which the scan gives the verdict `v`, as the scan leaves them.
abbrev pub same_verdict : Verdict → Verdict → Bool
same_verdict keep keep = true
same_verdict retry retry = true
same_verdict timed timed = true
same_verdict ping ping = true
same_verdict purge purge = true
same_verdict _ _ = false

unfoldable pub picked : Verdict → List CRecord → List CRecord
picked v [] = []
picked v (p ∷ ps) =
    if same_verdict v (scan_record p).1 then (scan_record p).0 ∷ picked v ps else picked v ps

abbrev pub listed : Verdict → Scan → List CRecord
listed keep s = []
listed retry s = s.retries
listed timed s = s.timeds
listed ping s = s.pings
listed purge s = s.purges

listed-thread :
    (v : Verdict) (w : CRecord × Verdict) (s : Scan)
    → v ≢ keep
    → listed v (thread w s) ≡ (if same_verdict v w.1 then w.0 ∷ listed v s else listed v s)
listed-thread keep w s ne = absurd (ne refl)
listed-thread retry (p, w) s ne = ground arith
listed-thread timed (p, w) s ne = ground arith
listed-thread ping (p, w) s ne = ground arith
listed-thread purge (p, w) s ne = ground arith

scan_bucket-listed :
    (v : Verdict) (ps : List CRecord) (s : Scan)
    → v ≢ keep
    → listed v (scan_bucket ps s).1 ≡ reverse (picked v ps) ++ listed v s
unfolding scan_bucket picked
scan_bucket-listed v [] s ne = refl
scan_bucket-listed v (p ∷ ps) s ne =
    scan_bucket-listed v ps (thread (scan_record p) s) ne
    ∙ elim (Bool-cases (same_verdict v (scan_record p).1)) [
      | inl e ↦
          rw (listed-thread v (scan_record p) s ne, e, reverse-cons (scan_record p).0 (picked v ps))
            (sym (append_assoc (reverse (picked v ps)) ((scan_record p).0 ∷ []) (listed v s)))
      | inr e ↦ rw (listed-thread v (scan_record p) s ne, e) refl
    ]

abbrev pub picked_all : Verdict → Table → List CRecord
picked_all v [] = []
picked_all v (b ∷ bs) = picked v b ++ picked_all v bs

scan_buckets-listed :
    (v : Verdict) (t : Table) (s : Scan)
    → v ≢ keep
    → listed v (scan_buckets t s).1 ≡ reverse (picked_all v t) ++ listed v s
unfolding scan_buckets
scan_buckets-listed v [] s ne = refl
scan_buckets-listed v (b ∷ bs) s ne =
    scan_buckets-listed v bs (scan_bucket b s).1 ne
    ∙ rw (scan_bucket-listed v b s ne, reverse-append (picked v b) (picked_all v bs))
        (sym (append_assoc (reverse (picked_all v bs)) (reverse (picked v b)) (listed v s)))

listed-nothing :
    (v : Verdict) → listed v (record { retries = []; timeds = []; pings = []; purges = [] }) ≡ []
listed-nothing keep = refl
listed-nothing retry = refl
listed-nothing timed = refl
listed-nothing ping = refl
listed-nothing purge = refl

-- Each of the four lists holds exactly the records with its verdict, in the reverse of the order
-- in which the scan meets them.
pub ctable_scan-listed :
    (v : Verdict) (t : Table) → v ≢ keep → listed v (ctable_scan t).1 ≡ reverse (picked_all v t)
unfolding ctable_scan
ctable_scan-listed v t ne =
    scan_buckets-listed v t _ ne ∙ rw (listed-nothing v) (append-nil (reverse (picked_all v t)))
