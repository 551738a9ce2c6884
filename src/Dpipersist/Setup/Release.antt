-- ===== src/Dpipersist/Setup/Release.antt =====
-- dpipersist.c, `main`: on which ways out everything that was acquired is released, in reverse
-- order.
use hwdb_opendpi.Prelude.{
  ℕ, ◌≡◌, Bool, true, false, ◌&&◌, ◌||◌, not, List, [], ◌∷◌, Outcome, done, exits, fault, arith,
}
use hwdb_opendpi.Dpipersist.Setup.{
  Answers, Resource, connection, environment, database_handle, mutex, SetupCall, acquire, release,
  env_open, file_open, polls, setup,
}

abbrev same : Resource → Resource → Bool
same connection connection = true
same environment environment = true
same database_handle database_handle = true
same mutex mutex = true
same r q = false

-- Whether the calls release just what they acquire, each time what was acquired last, where `held`
-- is held at the beginning.
abbrev pub unwinds : List Resource → List SetupCall → Bool
unwinds [] [] = true
unwinds (r ∷ held) [] = false
unwinds held (acquire r ∷ calls) = unwinds (r ∷ held) calls
unwinds [] (release r ∷ calls) = false
unwinds (q ∷ held) (release r ∷ calls) = same q r && unwinds held calls
unwinds held (env_open ∷ calls) = unwinds held calls
unwinds held (file_open ∷ calls) = unwinds held calls
unwinds held (polls ∷ calls) = unwinds held calls

-- An `exit` before anything is acquired is in order, and a fault is not.
abbrev pub tidy : Outcome (List SetupCall × ℕ) → Bool
tidy (done r) = unwinds [] r.0
tidy (exits n) = true
tidy fault = false

-- The step that fails first.
abbrev pub fails_at : Answers → Bool
fails_at a = a.thread_starts && (a.rpc_starts && (a.connects && (a.env_creates && a.env_opens)))

-- Everything that was acquired is released in reverse order, except when db_create fails, which
-- ends in an access through NULL, and when the mutex cannot be allocated, which is then freed.
pub tidy-setup :
    (a : Answers) (status : ℕ)
    → tidy (setup a status)
      ≡ not (fails_at a && (not a.db_creates || (a.db_opens && not a.mutex_allocates)))
unfolding setup
tidy-setup a status = ground arith
