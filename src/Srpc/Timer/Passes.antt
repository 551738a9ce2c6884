-- ===== src/Srpc/Timer/Passes.antt =====
-- srpc.c, `timer`: what the removals and the time-outs of a tick do to one bucket of the table.
use mathlib.Core.List.{reverse, reverse-append}
use native.Mathlib.Decide.{ℕ_discrete}
use hwdb_opendpi.Prelude.{
  ℕ, zero, suc, ◌+◌, ◌≡◌, ◌≢◌, refl, sym, ap, ◌∙◌, List, [], ◌∷◌, ◌++◌, arith, length, get_or, set,
  get_or-set_self, get_or-set_ne, All, ◌==◌, ==_of_eq, ==_of_ne, if◌then◌else◌,
}
use hwdb_opendpi.Endpoint.{RpcEndpoint}
use hwdb_opendpi.Endpoint.Hash.{endpoint_hash-lt}
use hwdb_opendpi.Crecord.{CRecord, crecord_set_state, st_timedout}
use hwdb_opendpi.Ctable.{
  Table, ctable_size, bucket, unlink, ctable_remove, assign, store, Verdict, scan_record,
}
use hwdb_opendpi.Ctable.Holds.{length-store, length-ctable_remove, All-imp}
use hwdb_opendpi.Ctable.Lookup.{home}
use hwdb_opendpi.Ctable.Scanning.{picked, picked_all, scan_record-SameConnection}
use hwdb_opendpi.Srpc.Timer.Keeps.{All-reverse, picked-All, picked_all-All}
use hwdb_opendpi.Srpc.Timer.{purge_all, time_out_all}

abbrev pub ending : CRecord → CRecord
ending c = crecord_set_state c st_timedout

abbrev pub drops : CRecord → List CRecord → List CRecord
drops p rs = unlink p.self rs

abbrev pub ends : CRecord → List CRecord → List CRecord
ends p rs = assign (ending p) rs

-- What the records of a list do to the bucket `i`, each to its own bucket.
abbrev pub passes :
    (CRecord → List CRecord → List CRecord) → ℕ → List CRecord → List CRecord → List CRecord
passes f i [] rs = rs
passes f i (p ∷ ps) rs = passes f i ps (if home p.ep == i then f p rs else rs)

bucket-set :
    (t : Table) (ep : RpcEndpoint) (i : ℕ) (b : List CRecord)
    → length t ≡ ctable_size
    → get_or (set t (home ep) b) i [] ≡ (if home ep == i then b else get_or t i [])
bucket-set t ep i b wide = elim (ℕ_discrete (home ep) i) [
  | yes e ↦
      rw (==_of_eq (home ep) i e, ← e)
        (get_or-set_self t (home ep) b []
          (omega (arith, wide, endpoint_hash-lt ep ctable_size (omega arith))))
  | no ne ↦ rw (==_of_ne (home ep) i ne) (get_or-set_ne t (home ep) i b [] ne)
]

if_at :
    (a i : ℕ) (f : ℕ → List CRecord) (g : List CRecord → List CRecord)
    → (if a == i then g (f a) else f i) ≡ (if a == i then g (f i) else f i)
if_at a i f g = elim (ℕ_discrete a i) [
  | yes e ↦ rw (==_of_eq a i e, e) refl
  | no ne ↦ rw (==_of_ne a i ne) refl
]

module _ (i : ℕ) (p : CRecord) (t : Table) (wide : length t ≡ ctable_size) where
  ctable_remove-bucket :
      get_or (ctable_remove p t) i []
      ≡ (if home p.ep == i then drops p (get_or t i []) else get_or t i [])
  unfolding ctable_remove
  ctable_remove-bucket =
      bucket-set t p.ep i (unlink p.self (bucket t p.ep)) wide
      ∙ if_at (home p.ep) i (λ j. get_or t j []) (drops p)

  store-bucket :
      get_or (store (ending p) t) i []
      ≡ (if home p.ep == i then ends p (get_or t i []) else get_or t i [])
  unfolding store crecord_set_state
  store-bucket =
      bucket-set t p.ep i (assign (ending p) (bucket t p.ep)) wide
      ∙ if_at (home p.ep) i (λ j. get_or t j []) (ends p)

pub purge_all-bucket :
    (i : ℕ) (ps : List CRecord) (t : Table)
    → length t ≡ ctable_size
    → (length (purge_all ps t) ≡ ctable_size)
      × (get_or (purge_all ps t) i [] ≡ passes drops i ps (get_or t i []))
unfolding purge_all
purge_all-bucket i [] t wide = (wide, refl)
purge_all-bucket i (p ∷ ps) t wide =
    let (wide', e) = purge_all-bucket i ps (ctable_remove p t) (length-ctable_remove p t ∙ wide) in
    (wide', e ∙ ap (passes drops i ps) (ctable_remove-bucket i p t wide))

pub time_out_all-bucket :
    (i : ℕ) (ps : List CRecord) (t : Table)
    → length t ≡ ctable_size
    → get_or (time_out_all ps t) i [] ≡ passes ends i ps (get_or t i [])
unfolding time_out_all
time_out_all-bucket i [] t wide = refl
time_out_all-bucket i (p ∷ ps) t wide =
    time_out_all-bucket i ps (store (ending p) t) (length-store (ending p) t ∙ wide)
    ∙ ap (passes ends i ps) (store-bucket i p t wide)

module _ (f : CRecord → List CRecord → List CRecord) (i : ℕ) where
  pub passes-append :
      (ps qs rs : List CRecord) → passes f i (ps ++ qs) rs ≡ passes f i qs (passes f i ps rs)
  passes-append [] qs rs = refl
  passes-append (p ∷ ps) qs rs = passes-append ps qs _

  passes-elsewhere : (ps rs : List CRecord) → All (λ p. home p.ep ≢ i) ps → passes f i ps rs ≡ rs
  passes-elsewhere [] rs a = refl
  passes-elsewhere (p ∷ ps) rs a = rw (==_of_ne (home p.ep) i a.0) (passes-elsewhere ps rs a.1)

  -- The scan of a record leaves it in its bucket.
  off :
      (j : ℕ)
      → j ≢ i
      → (ps : List CRecord) → All (λ p. home p.ep ≡ j) ps
      → All (λ p. home p.ep ≢ i) ps
  off j ne ps a = All-imp (λ p. home p.ep ≡ j) (λ p. home p.ep ≢ i) ps (λ p at e. ne (sym at ∙ e)) a

  scanned : (p : CRecord) → home p.ep ≢ i → home (scan_record p).0.ep ≢ i
  scanned p ne = rw (scan_record-SameConnection p).ep ne

  -- Of the records that the scan lists, those of the bucket itself count.
  pub passes-picked :
      (v : Verdict) (k m : ℕ) (t : Table) (rs : List CRecord)
      → ((j : ℕ) → All (λ p. home p.ep ≡ k + j) (get_or t j []))
      → k + m ≡ i
      → passes f i (reverse (picked_all v t)) rs
        ≡ passes f i (reverse (picked v (get_or t m []))) rs
  unfolding picked
  passes-picked v k m [] rs a e = refl
  passes-picked v k zero (b ∷ bs) rs a e =
      let others : All (λ p. home p.ep ≢ i) (reverse (picked_all v bs)) =
        All-reverse (λ p. home p.ep ≢ i) (picked_all v bs)
          (picked_all-All (λ p. home p.ep ≢ i) v bs scanned
            (λ j. off (k + suc j) (omega (arith, e)) (get_or bs j []) (a (suc j)))) in
      rw (reverse-append (picked v b) (picked_all v bs)) (
        passes-append (reverse (picked_all v bs)) (reverse (picked v b)) rs
        ∙ ap (passes f i (reverse (picked v b)))
            (passes-elsewhere (reverse (picked_all v bs)) rs others))
  passes-picked v k (suc m) (b ∷ bs) rs a e =
      let others : All (λ p. home p.ep ≢ i) (reverse (picked v b)) =
        All-reverse (λ p. home p.ep ≢ i) (picked v b)
          (picked-All (λ p. home p.ep ≢ i) v b scanned (off (k + 0) (omega (arith, e)) b (a 0))) in
      rw (reverse-append (picked v b) (picked_all v bs)) (
        passes-append (reverse (picked_all v bs)) (reverse (picked v b)) rs
        ∙ passes-elsewhere (reverse (picked v b)) (passes f i (reverse (picked_all v bs)) rs) others
        ∙ passes-picked v (k + 1) m bs rs (λ j. shift j (get_or bs j []) (a (suc j)))
            (omega (arith, e)))
    where
      shift :
          (j : ℕ) (ps : List CRecord)
          → All (λ p. home p.ep ≡ k + suc j) ps
          → All (λ p. home p.ep ≡ k + 1 + j) ps
      shift j ps h =
          All-imp (λ p. home p.ep ≡ k + suc j) (λ p. home p.ep ≡ k + 1 + j) ps
            (λ p at. omega (arith, at)) h
