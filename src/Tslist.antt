-- ===== src/Tslist.antt =====
-- tslist.c and tslist.h: the queue of a service, a singly linked list with a tail pointer and a
-- count. Addresses are numbers and 0 is NULL; a heap gives the element at each allocated address.
-- `fresh` is what `mem_alloc` returns. Every operation runs under the list's mutex, so it is one
-- step; an access to memory that is not allocated is the outcome `fault`.
pub mod Cells
pub mod Queue
use hwdb_opendpi.Prelude.{
  ℕ, ◌+◌, ◌-◌, ◌%◌, ◌^◌, Bool, true, false, Option, none, some, ◌==◌, if◌then◌else◌,
}

-- The source's `data` is `payload` here.
pub record Element (A B : Type 0) : Type 0 where
  pub next : ℕ
  pub addr : A
  pub payload : B
  pub size : ℕ

pub record ListHead : Type 0 where
  pub head : ℕ
  pub tail : ℕ
  pub count : ℕ

abbrev pub Heap : Type 0 → Type 0 → Type 0
Heap A B = ℕ → Option (Element A B)

-- What an operation leaves behind: the list head, the heap and its result.
pub data Outcome (A B R : Type 0) : Type 0 where
  done : ListHead → Heap A B → R → Outcome A B R
  blocked : Outcome A B R
  fault : Outcome A B R

-- What `tsl_remove` stores through its three pointers.
pub record Item (A B : Type 0) : Type 0 where
  pub addr : A
  pub payload : B
  pub size : ℕ

-- The initialisation of the mutex and the condition variable is taken to succeed.
unfoldable pub tsl_create : ℕ → Option ListHead
tsl_create fresh = if fresh == 0 then none else some (record { head = 0; tail = 0; count = 0 })

module _ {A B : Type 0} where
  unfoldable pub write : Heap A B → ℕ → Option (Element A B) → Heap A B
  write h p c q = if q == p then c else h q

  abbrev pub element : Item A B → ℕ → Element A B
  element x next = record { next = next; addr = x.addr; payload = x.payload; size = x.size }

  -- `lh->tail->next = e`
  unfoldable pub set_next : Heap A B → ℕ → ℕ → Option (Heap A B)
  set_next h p e = elim (h p) [
    | none ↦ none
    | some t ↦ some (write h p (some (record t { next = e })))
  ]

  unfoldable pub tsl_append : ℕ → ListHead → Heap A B → Item A B → Outcome A B Bool
  unfolding set_next
  tsl_append fresh lh h x =
      if fresh == 0
      then done lh h false
      else (let h' = write h fresh (some (element x 0)) in
          let count' = (lh.count + 1) % 2 ^ 64 in
          if lh.count == 0
          then done (record { head = fresh; tail = fresh; count = count' }) h' true
          else elim (set_next h' lh.tail fresh) [
            | none ↦ fault
            | some h'' ↦ done (record lh { tail = fresh; count = count' }) h'' true
          ])

  unfoldable pub tsl_prepend : ℕ → ListHead → Heap A B → Item A B → Outcome A B Bool
  tsl_prepend fresh lh h x =
      if fresh == 0
      then done lh h false
      else done
          (record {
            head = fresh;
            tail = if lh.count == 0 then fresh else lh.tail;
            count = (lh.count + 1) % 2 ^ 64;
          })
          (write h fresh (some (element x lh.head))) true

  -- The wait on `nonempty` is the outcome `blocked`: the caller runs again once it is signalled.
  unfoldable pub tsl_remove : ListHead → Heap A B → Outcome A B (Item A B)
  tsl_remove lh h = if lh.count == 0 then blocked else elim (h lh.head) [
    | none ↦ fault
    | some e ↦
        done
          (record {
            head = e.next;
            tail = if lh.count - 1 == 0 then 0 else lh.tail;
            count = lh.count - 1;
          })
          (write h lh.head none) (record { addr = e.addr; payload = e.payload; size = e.size })
  ]
