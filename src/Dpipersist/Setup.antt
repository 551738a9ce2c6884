-- ===== src/Dpipersist/Setup.antt =====
-- dpipersist.c: what `main` acquires behind the command line, and what it releases on each way out.
-- The answers of the libraries are an argument; what happens in the loop is the calls `polls`.
pub mod Release
use hwdb_opendpi.Prelude.{
  ℕ, Bool, true, false, List, [], ◌∷◌, ◌++◌, if◌then◌else◌, Outcome, done, exits, fault,
}

pub record Answers : Type 0 where
  pub thread_starts : Bool
  pub rpc_starts : Bool
  pub connects : Bool
  pub env_creates : Bool
  pub env_opens : Bool
  pub db_creates : Bool
  pub db_opens : Bool
  pub mutex_allocates : Bool
  pub mutex_frees : Bool
  pub db_closes : Bool
  pub env_closes : Bool

pub data Resource : Type 0 where
  connection environment database_handle mutex : Resource

pub data SetupCall : Type 0 where
  acquire : Resource → SetupCall
  release : Resource → SetupCall
  env_open file_open polls : SetupCall

-- A release: its result decides the exit status, if it fails.
abbrev pub releasing : Bool → Resource → ℕ → (ℕ → List SetupCall × ℕ) → List SetupCall × ℕ
releasing ok r status rest = let q = rest (if ok then status else 255) in (release r ∷ q.0, q.1)

-- The labels err0 to err3; each goes on to the one below.
unfoldable pub err0 : ℕ → List SetupCall × ℕ
err0 status = (release connection ∷ [], status)

unfoldable pub err1 : Answers → ℕ → List SetupCall × ℕ
unfolding err0
err1 a status = releasing a.env_closes environment status err0

unfoldable pub err2 : Answers → ℕ → List SetupCall × ℕ
unfolding err1
err2 a status = releasing a.db_closes database_handle status (err1 a)

unfoldable pub err3 : Answers → ℕ → List SetupCall × ℕ
unfolding err2
err3 a status = releasing a.mutex_frees mutex status (err2 a)

abbrev pub then_end : List SetupCall → List SetupCall × ℕ → Outcome (List SetupCall × ℕ)
then_end calls q = done (calls ++ q.0, q.1)

-- The calls, and the exit status; `status` is `exit_status` behind the loop. EXIT_FAILURE is 1.
-- When db_create fails, `dbp` is NULL, and `dbp->close` reads it.
unfoldable pub setup : Answers → ℕ → Outcome (List SetupCall × ℕ)
unfolding err3
setup a status =
    if a.thread_starts
    then if a.rpc_starts
      then if a.connects
        then if a.env_creates
          then if a.env_opens
            then if a.db_creates
              then if a.db_opens
                then if a.mutex_allocates
                  then then_end
                      (acquire connection
                        ∷ acquire environment
                        ∷ env_open
                        ∷ acquire database_handle
                        ∷ file_open
                        ∷ acquire mutex
                        ∷ polls
                        ∷ [])
                      (err3 a status)
                  else then_end
                      (acquire connection
                        ∷ acquire environment
                        ∷ env_open
                        ∷ acquire database_handle
                        ∷ file_open
                        ∷ [])
                      (err3 a 1)
                else then_end
                    (acquire connection
                      ∷ acquire environment
                      ∷ env_open
                      ∷ acquire database_handle
                      ∷ [])
                    (err2 a 1)
              else fault
            else then_end (acquire connection ∷ acquire environment ∷ []) (err1 a 1)
          else then_end (acquire connection ∷ []) (err0 1)
        else exits 255
      else exits 255
    else exits 255
