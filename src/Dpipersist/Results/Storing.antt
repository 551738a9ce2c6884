-- ===== src/Dpipersist/Results/Storing.antt =====
-- dpipersist.c, `processresults`: which flows are put into the file, and which timestamp is
-- returned.
use hwdb_opendpi.Prelude.{
  ℕ, suc, ◌+◌, ◌-◌, ◌%◌, ◌^◌, ◌≤◌, ◌≡◌, refl, ◌∙◌, ap, true, false, Option, some, none, List, [],
  ◌∷◌, ◌++◌, append_assoc, append-nil, arith, leb_of_le, if◌then◌else◌, length, get_or, All, done,
}
use hwdb_opendpi.Dpipersist.{Text, FlowData, DbCall, put, Answer, Shared}
use hwdb_opendpi.Dpipersist.Results.{
  Conversions, store_flow, store_flows, tstamp_of, last_tstamp, processresults,
}
use hwdb_opendpi.Dpipersist.Results.Memory.{
  filled, converted, HasColumns, mon_convert_lem, mon_free-results,
}

abbrev pub next_recno : ℕ → ℕ
next_recno n = (n + 1) % 2 ^ 32

-- The calls that put the flows `fs` behind the record number `n`, and the number they end with.
abbrev pub puts : ℕ → List FlowData → List DbCall
puts n [] = []
puts n (f ∷ fs) = put (next_recno n) f ∷ puts (next_recno n) fs

abbrev pub recno_after : ℕ → List FlowData → ℕ
recno_after n [] = n
recno_after n (f ∷ fs) = recno_after (next_recno n) fs

-- Every flow of the list is put without an error.
abbrev pub Accepted : Answer → List DbCall → ℕ → List FlowData → Type 0
Accepted answer calls n [] = Unit {0}
Accepted answer calls n (f ∷ fs) =
    (answer calls (put (next_recno n) f) ≡ true)
    × Accepted answer (calls ++ (put (next_recno n) f ∷ [])) (next_recno n) fs

-- The timestamp of the last flow, or `t`.
abbrev pub latest : ℕ → List FlowData → ℕ
latest t [] = t
latest t (f ∷ fs) = latest f.tstamp fs

abbrev pub stored : List FlowData → Shared → Shared
stored fs s = record s { calls = s.calls ++ puts s.recno fs; recno = recno_after s.recno fs }

latest-cell :
    (f : FlowData) (fs : List FlowData) (cells : List (Option FlowData))
    → tstamp_of (get_or (some f ∷ (filled fs ++ cells)) (length fs) none) ≡ latest f.tstamp fs
latest-cell f [] cells = refl
latest-cell f (g ∷ fs) cells = latest-cell g fs cells

last_tstamp-latest :
    (fs : List FlowData) (cells : List (Option FlowData))
    → last_tstamp (length fs) (filled fs ++ cells) ≡ latest 0 fs
last_tstamp-latest [] cells = refl
last_tstamp-latest (f ∷ fs) cells = latest-cell f fs cells

filled-append : (fs gs : List FlowData) → filled (fs ++ gs) ≡ filled fs ++ filled gs
filled-append [] gs = refl
filled-append (f ∷ fs) gs = ap (λ l. some f ∷ l) (filled-append fs gs)

store_flow-open :
    (answer : Answer) (f : FlowData) (s : Shared)
    → s.is_open ≡ true
    → store_flow answer f s ≡ (
        if answer s.calls (put (next_recno s.recno) f)
        then done (true, stored (f ∷ []) s)
        else done (false, record (stored (f ∷ []) s) { must_exit = true; exit_status = 255 }))
unfolding store_flow
store_flow-open answer f s opened = rw opened refl

-- After flows that are put without an error, the loop goes on with the rest.
store_flows-Accepted :
    (answer : Answer) (fs : List FlowData) (cells : List (Option FlowData)) (s s' : Shared)
    → s.is_open ≡ true
    → Accepted answer s.calls s.recno fs
    → store_flows answer cells (stored fs s) ≡ done (0, s')
    → store_flows answer (filled fs ++ cells) s ≡ done (length fs, s')
unfolding store_flows
store_flows-Accepted answer [] cells s s' opened ok rest = rw (append-nil s.calls) at rest
store_flows-Accepted answer (f ∷ fs) cells s s' opened ok rest =
    let s1 : Shared = stored (f ∷ []) s in
    let more : length fs + 1 ≡ suc (length fs) = omega arith in
    let order =
      append_assoc s.calls (put (next_recno s.recno) f ∷ []) (puts (next_recno s.recno) fs) in
    rw (store_flow-open answer f s opened, ok.0)
      (rw (store_flows-Accepted answer fs cells s1 s' opened ok.1 (rw order rest)) (rw more refl))

length-converted : (c : Conversions) (rs : List (List Text)) → length (converted c rs) ≡ length rs
length-converted c [] = refl
length-converted c (r ∷ rs) = ap suc (length-converted c rs)

module _ (answer : Answer) (c : Conversions) (rows : List (List Text)) (room : ℕ) (s : Shared)
    (columns : All HasColumns rows) (enough : length rows + 2 ≤ room)
    (opened : s.is_open ≡ true) where
  abbrev flows : List FlowData
  flows = converted c rows

  processresults_steps :
      (k last : ℕ) (s' : Shared)
      → store_flows answer (filled flows ++ []) s ≡ done (k, s')
      → last_tstamp k (filled flows ++ []) ≡ last
      → processresults answer c (some (record { mtype = 0; rows = rows })) false room s
        ≡ done (last, room, s')
  unfolding processresults
  processresults_steps k last s' run e =
      let fits = leb_of_le (length rows + 2) room enough in
      let back : room - (length rows + 2) + length flows + 2 ≡ room =
        omega (arith, length-converted c rows) in
      rw (mon_convert_lem c rows room columns, fits)
        (rw (run, e, mon_free-results (length rows) flows (room - (length rows + 2)), back) refl)

  -- When Berkeley DB takes every flow of the answer, all are put in order, the timestamp of the
  -- last is returned, and every block of memory is given back.
  pub processresults-stores :
      Accepted answer s.calls s.recno flows
      → processresults answer c (some (record { mtype = 0; rows = rows })) false room s
        ≡ done (latest 0 flows, room, stored flows s)
  unfolding store_flows
  processresults-stores ok =
      processresults_steps (length flows) (latest 0 flows) (stored flows s)
        (store_flows-Accepted answer flows [] s (stored flows s) opened ok refl)
        (last_tstamp-latest flows [])

  -- When Berkeley DB refuses a flow, those before it are put and none after it, the timestamp of
  -- the last that was put is returned, and the program is told to exit with the status -1.
  pub processresults-stops :
      (good more : List FlowData) (f : FlowData)
      → flows ≡ good ++ (f ∷ more)
      → Accepted answer s.calls s.recno good
      → answer (s.calls ++ puts s.recno good) (put (next_recno (recno_after s.recno good)) f)
        ≡ false
      → processresults answer c (some (record { mtype = 0; rows = rows })) false room s
        ≡ done (
          latest 0 good,
          room,
          record (stored (f ∷ []) (stored good s)) { must_exit = true; exit_status = 255 },
        )
  unfolding store_flows
  processresults-stops good more f split ok refused =
      let stopped : Shared = record (stored (f ∷ []) (stored good s)) {
        must_exit = true;
        exit_status = 255;
      } in
      let cells : filled flows ++ [] ≡ filled good ++ filled (f ∷ more) =
        append-nil (filled flows) ∙ ap filled split ∙ filled-append good (f ∷ more) in
      processresults_steps (length good) (latest 0 good) stopped
        (rw cells (
          store_flows-Accepted answer good (filled (f ∷ more)) s stopped opened ok
            (rw (store_flow-open answer f (stored good s) opened, refused) refl)))
        (rw cells (last_tstamp-latest good (filled (f ∷ more))))
