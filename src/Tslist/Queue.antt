-- ===== src/Tslist/Queue.antt =====
-- The list refines a first-in first-out queue.
use mathlib.Core.Path.{subst}
use hwdb_opendpi.Prelude.{
  ℕ, ◌+◌, ◌^◌, ◌<◌, ◌≡◌, ◌≢◌, refl, sym, true, none, some, List, [], ◌∷◌, ◌++◌, map, arith, length,
  length-append, ◌-◌, ◌%◌, ==_of_eq, ==_of_ne, ◌==◌, if◌then◌else◌, ◌⊎◌, inl, inr,
}
use hwdb_opendpi.Tslist.{
  Heap, Item, Element, ListHead, Outcome, done, blocked, write, element, tsl_append, tsl_prepend,
  tsl_remove,
}
use hwdb_opendpi.Tslist.Cells.{
  first, last, Cells, Absent-of_none, Cells-write, Cells-erase, Cells-snoc, last-Cells, last-snoc,
}

-- The list head and the heap hold the cells `xs`.
pub record Represents {A B : Type 0} (lh : ListHead) (h : Heap A B) (xs : List (ℕ × Item A B))
    : Type 0 where
  pub head : lh.head ≡ first xs
  pub tail : lh.tail ≡ last xs
  pub count : lh.count ≡ length xs
  pub cells : Cells h xs

module _ {A B : Type 0} where
  -- The abstract queue: the items, oldest first.
  abbrev pub items : List (ℕ × Item A B) → List (Item A B)
  items = map (λ x. x.1)

  -- The outcome is `done` with a list that stands for `xs`.
  abbrev pub Leaves : {R : Type 0} → Outcome A B R → R → List (ℕ × Item A B) → Type 0
  Leaves o r xs = (lh : ListHead) × (h : Heap A B) × (o ≡ done lh h r) × Represents lh h xs

  tsl_append-linked :
      (fresh : ℕ) (lh : ListHead) (h : Heap A B) (x : Item A B) (t : Element A B)
      → fresh ≢ 0
      → lh.count ≢ 0
      → lh.count + 1 < 2 ^ 64
      → write h fresh (some (element x 0)) lh.tail ≡ some t
      → tsl_append fresh lh h x
        ≡ done
            (record lh { tail = fresh; count = lh.count + 1 })
            (write (write h fresh (some (element x 0))) lh.tail (some (record t { next = fresh })))
            true
  unfolding tsl_append
  tsl_append-linked fresh lh h x t nz more room found =
      rw (==_of_ne _ _ nz, ==_of_ne _ _ more, found) (ground arith)

  write-other :
      (h : Heap A B) (p q : ℕ) (e t : Element A B)
      → h p ≡ none
      → h q ≡ some t
      → write h p (some e) q ≡ some t
  unfolding write
  write-other h p q e t free found = ground arith

  write-new :
      (h : Heap A B) (p next : ℕ) (x : Item A B) (xs : List (ℕ × Item A B))
      → next ≡ first xs
      → write h p (some (element x next)) p ≡ some (element x (first xs))
  unfolding write
  write-new h p next x xs e = ground arith

  tsl_remove-taken :
      (lh : ListHead) (h : Heap A B) (x : Item A B) (next : ℕ)
      → lh.count ≢ 0
      → h lh.head ≡ some (element x next)
      → tsl_remove lh h
        ≡ done
            (record {
              head = next;
              tail = if lh.count - 1 == 0 then 0 else lh.tail;
              count = lh.count - 1;
            })
            (write h lh.head none)
            x
  unfolding tsl_remove
  tsl_remove-taken lh h x next more found = rw (==_of_ne _ _ more, found)

  -- Whenever `mem_alloc` returns a free block, `tsl_append` puts the item behind all others,
  -- returns 1, and never touches memory that is not allocated.
  pub tsl_append-Leaves :
      (fresh : ℕ) (lh : ListHead) (h : Heap A B) (x : Item A B) (xs : List (ℕ × Item A B))
      → fresh ≢ 0
      → h fresh ≡ none
      → length xs + 1 < 2 ^ 64
      → Represents lh h xs
      → Leaves (tsl_append fresh lh h x) true (xs ++ (fresh, x) ∷ [])
  unfolding tsl_append
  tsl_append-Leaves fresh lh h x [] nz free room r = (
    record { head = fresh; tail = fresh; count = 1 },
    write h fresh (some (element x 0)),
    ground arith,
    record {
      head = refl;
      tail = refl;
      count = refl;
      cells = (nz, write-new h fresh 0 x [] refl, tt, tt);
    },
  )
  tsl_append-Leaves fresh lh h x (y ∷ xs) nz free room r =
      let (t, found, nz') = last-Cells h y xs r.cells in
      let at_tail : h lh.tail ≡ some t = rw r.tail found in
      (
        record lh { tail = fresh; count = lh.count + 1 },
        write (write h fresh (some (element x 0))) lh.tail (some (record t { next = fresh })),
        tsl_append-linked fresh lh h x t nz (omega (arith, r.count)) (omega (arith, r.count))
            (write-other h fresh lh.tail _ t free at_tail),
        record {
          head = r.head;
          tail = sym (last-snoc (y ∷ xs) (fresh, x));
          count = omega (arith, r.count, length-append (y ∷ xs) ((fresh, x) ∷ []));
          cells =
              subst
                (λ q.
                  Cells
                    (write (write h fresh (some (element x 0))) q
                      (some (record t { next = fresh })))
                    ((y ∷ xs) ++ (fresh, x) ∷ []))
                (sym r.tail) (Cells-snoc h fresh x t y xs free nz found r.cells);
        },
      )

  -- `tsl_prepend` puts the item before all others.
  pub tsl_prepend-Leaves :
      (fresh : ℕ) (lh : ListHead) (h : Heap A B) (x : Item A B) (xs : List (ℕ × Item A B))
      → fresh ≢ 0
      → h fresh ≡ none
      → length xs + 1 < 2 ^ 64
      → Represents lh h xs
      → Leaves (tsl_prepend fresh lh h x) true ((fresh, x) ∷ xs)
  unfolding tsl_prepend
  tsl_prepend-Leaves fresh lh h x xs nz free room r = (
    record {
      head = fresh;
      tail = if lh.count == 0 then fresh else lh.tail;
      count = (lh.count + 1) % 2 ^ 64;
    },
    write h fresh (some (element x lh.head)),
    rw (==_of_ne _ _ nz),
    record {
      head = refl;
      tail = tail_of xs r.tail r.count;
      count = omega (arith, r.count);
      cells = (
        nz,
        write-new h fresh lh.head x xs r.head,
        Absent-of_none h fresh xs free r.cells,
        Cells-write h fresh _ xs (Absent-of_none h fresh xs free r.cells) r.cells,
      );
    },
  )
    where
      tail_of :
          (ys : List (ℕ × Item A B))
          → lh.tail ≡ last ys
          → lh.count ≡ length ys
          → (if lh.count == 0 then fresh else lh.tail) ≡ last ((fresh, x) ∷ ys)
      tail_of [] t c = rw (==_of_eq lh.count 0 c)
      tail_of (y ∷ ys) t c = rw (==_of_ne lh.count 0 (omega arith)) t

  -- `tsl_remove` waits exactly when the queue is empty; otherwise it takes the oldest item,
  -- frees its element and leaves the others in order.
  pub tsl_remove-Leaves :
      (lh : ListHead) (h : Heap A B) (xs : List (ℕ × Item A B))
      → Represents lh h xs
      → ((xs ≡ []) × (tsl_remove lh h ≡ blocked))
        ⊎ ((p : ℕ) × (x : Item A B) × (rest : List (ℕ × Item A B)) × (xs ≡ (p, x) ∷ rest)
            × Leaves (tsl_remove lh h) x rest)
  unfolding tsl_remove
  tsl_remove-Leaves lh h [] r = inl (refl, ground (arith, r.count))
  tsl_remove-Leaves lh h ((p, x) ∷ rest) r = inr (
    p,
    x,
    rest,
    refl,
    (
      record {
        head = first rest;
        tail = if lh.count - 1 == 0 then 0 else lh.tail;
        count = lh.count - 1;
      },
      write h lh.head none,
      tsl_remove-taken lh h x (first rest) (omega (arith, r.count)) (rw r.head r.cells.1),
      record {
        head = refl;
        tail = last_of rest r.tail r.count;
        count = omega (arith, r.count);
        cells = rw r.head (Cells-erase h p rest r.cells.2 r.cells.3);
      },
    ),
  )
    where
      last_of :
          (ys : List (ℕ × Item A B))
          → lh.tail ≡ last ((p, x) ∷ ys)
          → lh.count ≡ length ((p, x) ∷ ys)
          → (if lh.count - 1 == 0 then 0 else lh.tail) ≡ last ys
      last_of [] t c = rw (==_of_eq (lh.count - 1) 0 (omega arith))
      last_of (y ∷ ys) t c = rw (==_of_ne (lh.count - 1) 0 (omega arith)) t
