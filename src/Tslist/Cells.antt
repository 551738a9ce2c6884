-- ===== src/Tslist/Cells.antt =====
-- What a linked list in the heap stands for: the address and the item of each element, in order.
use hwdb_opendpi.Prelude.{ℕ, ◌≡◌, ◌≢◌, refl, none, some, List, [], ◌∷◌, ◌++◌, arith}
use hwdb_opendpi.Tslist.{Heap, Item, Element, element, write}

module _ {A B : Type 0} where
  abbrev pub first : List (ℕ × Item A B) → ℕ
  first [] = 0
  first (x ∷ xs) = x.0

  abbrev pub last : List (ℕ × Item A B) → ℕ
  last [] = 0
  last (x ∷ []) = x.0
  last (x ∷ y ∷ xs) = last (y ∷ xs)

  abbrev pub Absent : ℕ → List (ℕ × Item A B) → Type 0
  Absent p [] = Unit {0}
  Absent p (x ∷ xs) = (p ≢ x.0) × Absent p xs

  -- Distinct allocated elements, each pointing at the one behind it.
  abbrev pub Cells : Heap A B → List (ℕ × Item A B) → Type 0
  Cells h [] = Unit {0}
  Cells h (x ∷ xs) =
      (x.0 ≢ 0) × (h x.0 ≡ some (element x.1 (first xs))) × Absent x.0 xs × Cells h xs

  pub Absent-of_none :
      (h : Heap A B) (p : ℕ) (xs : List (ℕ × Item A B)) → h p ≡ none → Cells h xs → Absent p xs
  Absent-of_none h p [] e c = tt
  Absent-of_none h p (x ∷ xs) e c = (λ same. cc, Absent-of_none h p xs e c.3)

  -- Cells survive a write at another address.
  pub Cells-write :
      (h : Heap A B) (p : ℕ) (e : Element A B) (xs : List (ℕ × Item A B))
      → Absent p xs
      → Cells h xs
      → Cells (write h p (some e)) xs
  unfolding write
  Cells-write h p e [] a c = tt
  Cells-write h p e (x ∷ xs) a c = (c.0, ground arith, c.2, Cells-write h p e xs a.1 c.3)

  pub Cells-erase :
      (h : Heap A B) (p : ℕ) (xs : List (ℕ × Item A B))
      → Absent p xs
      → Cells h xs
      → Cells (write h p none) xs
  unfolding write
  Cells-erase h p [] a c = tt
  Cells-erase h p (x ∷ xs) a c = (c.0, ground arith, c.2, Cells-erase h p xs a.1 c.3)

  Absent-snoc :
      (p : ℕ) (xs : List (ℕ × Item A B)) (y : ℕ × Item A B)
      → Absent p xs
      → p ≢ y.0
      → Absent p (xs ++ y ∷ [])
  Absent-snoc p [] y a n = (n, tt)
  Absent-snoc p (x ∷ xs) y a n = (a.0, Absent-snoc p xs y a.1 n)

  last-ne :
      (p : ℕ) (x : ℕ × Item A B) (xs : List (ℕ × Item A B)) → Absent p (x ∷ xs) → p ≢ last (x ∷ xs)
  last-ne p x [] a = a.0
  last-ne p x (y ∷ xs) a = last-ne p y xs a.1

  -- A heap that holds the last cell with its link turned to a new cell holds the longer list.
  pub Cells-snoc :
      (h : Heap A B) (p : ℕ) (y : Item A B) (t : Element A B) (x : ℕ × Item A B)
      (xs : List (ℕ × Item A B))
      → h p ≡ none
      → p ≢ 0
      → h (last (x ∷ xs)) ≡ some t
      → Cells h (x ∷ xs)
      → Cells
          (write (write h p (some (element y 0))) (last (x ∷ xs)) (some (record t { next = p })))
          ((x ∷ xs) ++ (p, y) ∷ [])
  unfolding write
  Cells-snoc h p y t x [] free nz found c =
      (c.0, ground arith, (λ same. cc, tt), (nz, ground arith, tt, tt))
  Cells-snoc h p y t x (z ∷ xs) free nz found c = (
    c.0,
    ground (arith, last-ne x.0 z xs c.2),
    Absent-snoc x.0 (z ∷ xs) (p, y) c.2 (λ same. cc),
    Cells-snoc h p y t z xs free nz found c.3,
  )

  pub last-Cells :
      (h : Heap A B) (x : ℕ × Item A B) (xs : List (ℕ × Item A B))
      → Cells h (x ∷ xs)
      → (t : Element A B) × (h (last (x ∷ xs)) ≡ some t) × (last (x ∷ xs) ≢ 0)
  last-Cells h x [] c = (element x.1 0, c.1, c.0)
  last-Cells h x (y ∷ xs) c = last-Cells h y xs c.3

  pub last-snoc : (xs : List (ℕ × Item A B)) (y : ℕ × Item A B) → last (xs ++ y ∷ []) ≡ y.0
  last-snoc [] y = refl
  last-snoc (x ∷ []) y = refl
  last-snoc (x ∷ z ∷ xs) y = last-snoc (z ∷ xs) y
