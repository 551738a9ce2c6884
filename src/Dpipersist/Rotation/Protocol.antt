-- ===== src/Dpipersist/Rotation/Protocol.antt =====
-- dpipersist.c: both threads keep to the order of calls that a handle of Berkeley DB asks for, and
-- what a failed rotation does to the lock.
use mathlib.Core.Path.{subst}
use hwdb_opendpi.Prelude.{
  ℕ, ◌≡◌, ◌≢◌, refl, sym, ◌∙◌, ap, inl, inr, Bool, true, false, List, [], ◌∷◌, ◌++◌, ◌%◌, ◌+◌, ◌^◌,
  Outcome, done, Bool-cases,
}
use hwdb_opendpi.Dpipersist.{
  Text, FlowData, DbCall, put, db_close, db_create, db_open, Answer, Shared,
}
use hwdb_opendpi.Dpipersist.Results.{store_flow}
use hwdb_opendpi.Dpipersist.Rotation.{
  database_name, call, open_new, rotate, Owner, nobody, main_thread, handler_thread, dead_handler,
  Step, signal_handler, leave, signalled, main_takes, main_stores, main_releases, handler_takes,
  handler_rotates, handler_returns, Reach, stays, goes,
}

-- The states of a handle; `misused` after a call out of order.
pub data Handle : Type 0 where
  closed created opened misused : Handle

abbrev pub after : Handle → DbCall → Handle
after opened (put n f) = opened
after opened db_close = closed
after closed db_create = created
after created (db_open name) = opened
after h c = misused

abbrev pub after_all : Handle → List DbCall → Handle
after_all h [] = h
after_all h (c ∷ cs) = after_all (after h c) cs

after_all-append :
    (h : Handle) (cs : List DbCall) (c : DbCall)
    → after_all h (cs ++ (c ∷ [])) ≡ after (after_all h cs) c
after_all-append h [] c = refl
after_all-append h (d ∷ cs) c = after_all-append (after h d) cs c

-- The file is open, and the calls so far have opened it.
pub record IsOpen (s : Shared) : Type 0 where
  pub usable : s.is_open ≡ true
  pub handle : after_all closed s.calls ≡ opened

abbrev pub WellUsed : Shared → Type 0
WellUsed s = after_all closed s.calls ≢ misused

next_handle :
    (s : Shared) (c : DbCall) (h : Handle)
    → after_all closed s.calls ≡ h
    → after_all closed (call c s).calls ≡ after h c
next_handle s c h e = after_all-append closed s.calls c ∙ ap (λ k. after k c) e

abbrev Stored : Outcome (Bool × Shared) → Type 0
Stored (done r) = IsOpen r.1
Stored o = ⊥

-- On an open file a flow is put or refused, without a fault, and the file stays open.
store_flow-Stored :
    (answer : Answer) (f : FlowData) (s : Shared) → IsOpen s → Stored (store_flow answer f s)
unfolding store_flow
store_flow-Stored answer f s v =
    let n = (s.recno + 1) % 2 ^ 32 in
    let h = next_handle s (put n f) opened v.handle in
    elim (Bool-cases (answer s.calls (put n f))) [
      | inl e ↦ rw (v.usable, e) (record { usable = refl; handle = h })
      | inr e ↦ rw (v.usable, e) (record { usable = refl; handle = h })
    ]

-- What a rotation leaves: an open file, or else a handle that no call was out of order for.
abbrev Rotated : Bool → Shared → Type 0
Rotated true s = IsOpen s
Rotated false s = WellUsed s

well_used : (s : Shared) (h : Handle) → after_all closed s.calls ≡ h → h ≢ misused → WellUsed s
well_used s h e n m = n (sym e ∙ m)

module _ (answer : Answer) (filestring : ℕ → Text) (seconds_to_midnight : ℕ → ℕ)
    (next_rotation : ℕ) where
  open_new-Rotated :
      (ct : ℕ) (s : Shared)
      → after_all closed s.calls ≡ closed
      → let r = open_new answer filestring seconds_to_midnight next_rotation ct s in Rotated r.0 r.1
  unfolding open_new
  open_new-Rotated ct s h =
      let name = database_name (filestring ct) in
      let made = next_handle s db_create closed h in
      let ready = next_handle (call db_create s) (db_open name) created made in
      elim (Bool-cases (answer s.calls db_create)) [
        | inl e ↦ elim (Bool-cases (answer (call db_create s).calls (db_open name))) [
          | inl t ↦ rw (e, t) (record { usable = refl; handle = ready })
          | inr t ↦ rw (e, t) (λ m. cc)
        ]
        | inr e ↦ rw e (λ m. cc)
      ]

  rotate-Rotated :
      (ct : ℕ) (s : Shared)
      → IsOpen s
      → let r = rotate answer filestring seconds_to_midnight next_rotation ct s in Rotated r.0 r.1
  unfolding rotate
  rotate-Rotated ct s v =
      let shut = next_handle s db_close opened v.handle in
      elim (Bool-cases (answer s.calls db_close)) [
        | inl e ↦ rw e (open_new-Rotated ct (record (call db_close s) { is_open = false }) shut)
        | inr e ↦ rw e (λ m. cc)
      ]

  abbrev Threads : Owner → Shared → Type 0
  Threads nobody s = IsOpen s
  Threads main_thread s = IsOpen s
  Threads handler_thread s = IsOpen s
  Threads dead_handler s = WellUsed s

  Threads-signalled : (o : Owner) (s : Shared) → Threads o s → Threads o (signal_handler s)
  Threads-signalled nobody s v = record { usable = v.usable; handle = v.handle }
  Threads-signalled main_thread s v = record { usable = v.usable; handle = v.handle }
  Threads-signalled handler_thread s v = record { usable = v.usable; handle = v.handle }
  Threads-signalled dead_handler s v = v

  Step-Threads :
      {o o' : Owner} {s s' : Shared}
      → Step answer filestring seconds_to_midnight next_rotation o s o' s'
      → Threads o s
      → Threads o' s'
  Step-Threads {o = o} {s = s} signalled v = Threads-signalled o s v
  Step-Threads main_takes v = v
  Step-Threads {s = s} (main_stores f b e) v = subst Stored e (store_flow-Stored answer f s v)
  Step-Threads main_releases v = v
  Step-Threads handler_takes v = v
  Step-Threads {s = s} (handler_rotates ct e) v =
      subst (λ r. Rotated r.0 r.1) e (rotate-Rotated ct s v)
  Step-Threads {s = s} (handler_returns ct e) v =
      subst (λ r. Rotated r.0 r.1) e (rotate-Rotated ct s v)

  Reach-Threads :
      {o o' : Owner} {s s' : Shared}
      → Reach answer filestring seconds_to_midnight next_rotation o s o' s'
      → Threads o s
      → Threads o' s'
  Reach-Threads stays v = v
  Reach-Threads (goes run step) v = Step-Threads step (Reach-Threads run v)

  Threads-result :
      (o : Owner) (s : Shared) → Threads o s → WellUsed s × (o ≢ dead_handler → s.is_open ≡ true)
  Threads-result nobody s v = (well_used s opened v.handle (λ e. cc), λ n. v.usable)
  Threads-result main_thread s v = (well_used s opened v.handle (λ e. cc), λ n. v.usable)
  Threads-result handler_thread s v = (well_used s opened v.handle (λ e. cc), λ n. v.usable)
  Threads-result dead_handler s v = (v, λ n. absurd (n refl))

  -- From an open file and a free lock, in whatever order the two threads go on: no call on the
  -- handle is out of order, and the file is open unless the rotation thread has returned.
  pub Reach-WellUsed :
      (s s' : Shared) (o : Owner)
      → IsOpen s
      → Reach answer filestring seconds_to_midnight next_rotation nobody s o s'
      → WellUsed s' × (o ≢ dead_handler → s'.is_open ≡ true)
  Reach-WellUsed s s' o v run = Threads-result o s' (Reach-Threads run v)

  dead_step :
      {o o' : Owner} {s s' : Shared}
      → Step answer filestring seconds_to_midnight next_rotation o s o' s'
      → o ≡ dead_handler
      → o' ≡ dead_handler
  dead_step signalled e = e
  dead_step main_takes e = cc
  dead_step (main_stores f b t) e = cc
  dead_step main_releases e = cc
  dead_step handler_takes e = cc
  dead_step (handler_rotates ct t) e = cc
  dead_step (handler_returns ct t) e = cc

  dead_for_ever :
      {o o' : Owner} {s s' : Shared}
      → o ≡ dead_handler
      → Reach answer filestring seconds_to_midnight next_rotation o s o' s'
      → o' ≡ dead_handler
  dead_for_ever e stays = e
  dead_for_ever e (goes run step) = dead_step step (dead_for_ever e run)

  -- When Berkeley DB refuses to close the old file, the program can come to a state in which it is
  -- told to exit, and from which no thread ever takes the lock; should main not wait for the lock
  -- and leave, its own close of the handle is out of order.
  pub rotation_deadlocks :
      (s : Shared)
      → IsOpen s
      → answer s.calls db_close ≡ false
      → (s1 : Shared) × Reach answer filestring seconds_to_midnight next_rotation nobody s
          dead_handler s1
        × (s1.must_exit ≡ true)
        × ((o : Owner) (s2 : Shared)
            → Reach answer filestring seconds_to_midnight next_rotation dead_handler s1 o s2
            → o ≡ dead_handler)
        × (after_all closed (leave s1).calls ≡ misused)
  unfolding rotate
  rotation_deadlocks s v refused =
      let s1 : Shared = record (call db_close s) {
        is_open = false;
        must_exit = true;
        exit_status = 255;
      } in
      (
        s1,
        goes (goes stays handler_takes) (handler_returns 0 (rw refused refl)),
        refl,
        λ o s2 run. dead_for_ever refl run,
        next_handle s1 db_close closed (next_handle s db_close opened v.handle),
      )
