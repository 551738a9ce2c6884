-- ===== src/Dpipersist/Rotation.antt =====
-- dpipersist.c, `handler`: the rotation thread, and how it and the main thread share the handle of
-- the file under the lock. A handle is usable from a successful `open` until `close` is called.
pub mod Protocol
use hwdb_opendpi.Prelude.{
  ℕ, ◌≡◌, Bool, true, false, List, [], ◌∷◌, ◌++◌, ◌==◌, if◌then◌else◌, Outcome, done,
}
use hwdb_opendpi.Dpipersist.{
  Text, FlowData, DbCall, put, db_close, db_create, db_open, Answer, Shared, rotation_secs,
}
use hwdb_opendpi.Dpipersist.Results.{store_flow}

-- `prefix` and `suffix` about the text of a timestamp.
abbrev pub database_name : Text → Text
database_name cts = (b'F' ∷ b'l' ∷ b'o' ∷ b'w' ∷ []) ++ (cts ++ (b'.' ∷ b'd' ∷ b'b' ∷ []))

abbrev pub call : DbCall → Shared → Shared
call c s = record s { calls = s.calls ++ (c ∷ []) }

abbrev pub give_up : Shared → Bool × Shared
give_up s = (false, record s { must_exit = true; exit_status = 255 })

-- The handler of SIGTERM, SIGINT and SIGHUP.
abbrev pub signal_handler : Shared → Shared
signal_handler s = record s { must_exit = true }

-- The close with which main leaves; it does not take the lock.
abbrev pub leave : Shared → Shared
leave s = call db_close s

-- Who holds the lock; `dead_handler` when the rotation thread has returned with it.
pub data Owner : Type 0 where
  nobody main_thread handler_thread dead_handler : Owner

module _ (answer : Answer) (filestring : ℕ → Text) (seconds_to_midnight : ℕ → ℕ)
    (next_rotation : ℕ) where
  -- The second and third part: the new name, and the new file.
  unfoldable pub open_new : ℕ → Shared → Bool × Shared
  open_new ct s =
      let s1 : Shared = record s {
        database = database_name (filestring ct);
        rotation = rotation_secs seconds_to_midnight next_rotation ct;
        recno = 1;
      } in
      if answer s1.calls db_create
      then (let s2 = call db_create s1 in
          if answer s2.calls (db_open s2.database)
          then (true, record (call (db_open s2.database) s2) { is_open = true })
          else give_up (call (db_open s2.database) s2))
      else give_up (call db_create s1)

  -- What is done between taking and giving back the lock; `ct` is the time. Without success the
  -- thread returns, and does not give the lock back.
  unfoldable pub rotate : ℕ → Shared → Bool × Shared
  unfolding open_new
  rotate ct s =
      let s1 : Shared = record (call db_close s) { is_open = false } in
      if answer s.calls db_close then open_new ct s1 else give_up s1

  -- The steps of the two threads while main is in its loop, and of a signal. A thread that finds
  -- the lock taken waits.
  pub data Step : Owner → Shared → Owner → Shared → Type 0 where
    signalled : {o : Owner} {s : Shared} → Step o s o (signal_handler s)
    main_takes : {s : Shared} → Step nobody s main_thread s
    main_stores :
        {s s' : Shared} (f : FlowData) (b : Bool)
        → store_flow answer f s ≡ done (b, s')
        → Step main_thread s main_thread s'
    main_releases : {s : Shared} → Step main_thread s nobody s
    handler_takes : {s : Shared} → Step nobody s handler_thread s
    handler_rotates :
        {s s' : Shared} (ct : ℕ) → rotate ct s ≡ (true, s') → Step handler_thread s nobody s'
    handler_returns :
        {s s' : Shared} (ct : ℕ) → rotate ct s ≡ (false, s') → Step handler_thread s dead_handler s'

  pub data Reach : Owner → Shared → Owner → Shared → Type 0 where
    stays : {o : Owner} {s : Shared} → Reach o s o s
    goes :
        {o o' o2 : Owner} {s s' s2 : Shared} → Reach o s o' s' → Step o' s' o2 s2 → Reach o s o2 s2
