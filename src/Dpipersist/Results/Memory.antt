-- ===== src/Dpipersist/Results/Memory.antt =====
-- dpipersist.c, `mon_convert` and `mon_free`: what is converted, and that no block is lost.
use hwdb_opendpi.Prelude.{
  ℕ, zero, suc, ◌+◌, ◌-◌, ◌≤◌, ◌≡◌, refl, ◌∙◌, ap, inl, inr, false, Option, some, none, List, [],
  ◌∷◌, ◌++◌, append_assoc, append-nil, arith, leb, leb_of_le, leb_of_lt, ltb_of_le, ltb,
  if◌then◌else◌, length, length-append, replicate, set, All, done, Bool-cases,
}
use hwdb_opendpi.Dpipersist.{Text, FlowData}
use hwdb_opendpi.Dpipersist.Results.{
  Conversions, FlowResults, mon_free_cells, mon_free, convert_row, convert_rows, mon_convert,
}

abbrev pub filled : List FlowData → List (Option FlowData)
filled [] = []
filled (p ∷ ps) = some p ∷ filled ps

-- The result for the flows `ps` of a table, whose other cells are NULL.
abbrev pub results_of : ℕ → List FlowData → ℕ → FlowResults
results_of n ps nulls = record { nflows = n; cells = filled ps ++ replicate nulls none }

abbrev pub converted : Conversions → List (List Text) → List FlowData
converted c [] = []
converted c (row ∷ rows) = convert_row c row ∷ converted c rows

-- Rows of the eight columns of the table Flows.
abbrev pub HasColumns : List Text → Type 0
HasColumns row = 8 ≤ length row

mon_free_filled :
    (ps : List FlowData) (nulls room : ℕ)
    → mon_free_cells (filled ps ++ replicate nulls none) room ≡ room + length ps
unfolding mon_free_cells
mon_free_filled [] zero room = omega arith
mon_free_filled [] (suc n) room = omega arith
mon_free_filled (p ∷ ps) nulls room = mon_free_filled ps nulls (room + 1) ∙ omega arith

set-filled :
    (ps : List FlowData) (p : FlowData) (n : ℕ)
    → set (filled ps ++ replicate (suc n) none) (length ps) (some p)
      ≡ filled (ps ++ (p ∷ [])) ++ replicate n none
set-filled [] p n = refl
set-filled (q ∷ ps) p n = ap (λ l. some q ∷ l) (set-filled ps p n)

-- The rest of the rows, when those behind `ps` are converted.
convert_rows_lem :
    (c : Conversions) (n : ℕ) (rows : List (List Text)) (ps : List FlowData) (room : ℕ)
    → All HasColumns rows
    → convert_rows c rows (length ps) (results_of n ps (length rows)) room ≡ (
        if leb (length rows) room
        then done (some (results_of n (ps ++ converted c rows) 0), room - length rows)
        else done (none, room + length ps + 2))
unfolding convert_rows
convert_rows_lem c n [] ps room h =
    let all : room - 0 ≡ room = omega arith in
    rw (leb_of_le 0 room (omega arith), append-nil ps, all) refl
convert_rows_lem c n (row ∷ rows) ps zero h =
    rw (leb_of_lt (suc (length rows)) 0 (omega arith), mon_free_filled ps (suc (length rows)) 0)
      refl
convert_rows_lem c n (row ∷ rows) ps (suc room) h =
    let p = convert_row c row in
    let count : length (ps ++ (p ∷ [])) ≡ length ps + 1 = length-append ps (p ∷ []) in
    let order : (ps ++ (p ∷ [])) ++ converted c rows ≡ ps ++ (p ∷ converted c rows) =
      append_assoc ps (p ∷ []) (converted c rows) in
    let fits : leb (suc (length rows)) (suc room) ≡ leb (length rows) room = ground arith in
    let less : suc room + length ps + 2 ≡ room + (length ps + 1) + 2 = omega arith in
    let left : suc room - suc (length rows) ≡ room - length rows = omega arith in
    rw (ltb_of_le (length row) 8 h.0, convert_rows, set-filled ps p (length rows), fits, left, less)
      (rw (count, order) at (convert_rows_lem c n rows (ps ++ (p ∷ [])) room h.1))

-- For a table of the eight columns of Flows: while malloc has a block for each row and two more,
-- every row is converted, in order; otherwise the result is NULL, and no block is lost.
pub mon_convert_lem :
    (c : Conversions) (rows : List (List Text)) (room : ℕ)
    → All HasColumns rows
    → mon_convert c (some (record { mtype = 0; rows = rows })) room ≡ (
        if leb (length rows + 2) room
        then done (some (results_of (length rows) (converted c rows) 0), room - (length rows + 2))
        else done (none, room))
unfolding mon_convert
mon_convert_lem c rows room h = elim (Bool-cases (ltb room 2)) [
  | inl short ↦
      let none_fit : leb (length rows + 2) room ≡ false = ground arith in rw (short, none_fit) refl
  | inr enough ↦
      let fits : leb (length rows) (room - 2) ≡ leb (length rows + 2) room = ground arith in
      let back : room - 2 + 0 + 2 ≡ room = ground arith in
      let left : room - 2 - length rows ≡ room - (length rows + 2) = omega arith in
      rw enough (rw (fits, back, left) at (convert_rows_lem c (length rows) rows [] (room - 2) h))
]

-- mon_free gives every block of such a result back.
pub mon_free-results :
    (n : ℕ) (ps : List FlowData) (room : ℕ)
    → mon_free (some (results_of n ps 0)) room ≡ room + length ps + 2
unfolding mon_free
mon_free-results n ps room = rw (mon_free_filled ps 0 room) refl
