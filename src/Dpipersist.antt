-- ===== src/Dpipersist.antt =====
-- dpipersist.c, the program that stores the database's flows in files of Berkeley DB: what its
-- parts share, and its command line. Berkeley DB, the client library of the database and libc are
-- parameters. `struct FlowData` has the fields that the program sets.
pub mod Options
pub mod Results
pub mod Rotation
pub mod Polling
pub mod Setup
use hwdb_opendpi.Prelude.{
  ℕ, ◌*◌, ◌%◌, ◌^◌, Bool, true, false, ◌||◌, Option, some, none, List, [], ◌∷◌, leb, ◌==◌,
  if◌then◌else◌, Outcome, done, exits, ◌>>=◌,
}
use hwdb_opendpi.Stable.{str_eq}

abbrev pub Text : Type 0
Text = List ℕ

pub record FlowData : Type 0 where
  pub tstamp : ℕ
  pub proto : ℕ
  pub ip_src : ℕ
  pub sport : ℕ
  pub ip_dst : ℕ
  pub dport : ℕ
  pub packets : ℕ
  pub bytes : ℕ

-- The calls of Berkeley DB on the file's handle; `put` with the record number that is passed.
pub data DbCall : Type 0 where
  put : ℕ → FlowData → DbCall
  db_close db_create : DbCall
  db_open : Text → DbCall

-- Whether Berkeley DB carries out a call, which may depend on all that came before.
abbrev pub Answer : Type 0
Answer = List DbCall → DbCall → Bool

-- The static variables that both threads use, and the calls so far, in order. `is_open` says that
-- `dbp` is a handle on which records can be put.
pub record Shared : Type 0 where
  pub calls : List DbCall
  pub is_open : Bool
  pub recno : ℕ
  pub database : Text
  pub rotation : ℕ
  pub must_exit : Bool
  pub exit_status : ℕ

abbrev pub an_hour_in_secs : ℕ
an_hour_in_secs = 3600

-- What the command line sets; `directory` is NULL without -d.
pub record Args : Type 0 where
  pub host : Text
  pub port : ℕ
  pub directory : Option Text
  pub next_rotation : ℕ

-- The result of atoi is its 32-bit pattern.
unfoldable pub set_flag : (Text → ℕ) → Text → Text → Args → Args
set_flag atoi flag value args =
    if str_eq flag (b'-' ∷ b'h' ∷ [])
    then record args { host = value }
    else if str_eq flag (b'-' ∷ b'p' ∷ [])
    then record args { port = atoi value % 2 ^ 16 }
    else if str_eq flag (b'-' ∷ b'd' ∷ [])
    then record args { directory = some value }
    else if str_eq flag (b'-' ∷ b'r' ∷ [])
    then record args { next_rotation = atoi value }
    else args

-- The loop over the arguments behind the program's name.
unfoldable pub read_args : (Text → ℕ) → List Text → Args → Outcome Args
unfolding set_flag
read_args atoi [] args = done args
read_args atoi (flag ∷ []) args = exits 1
read_args atoi (flag ∷ value ∷ rest) args = read_args atoi rest (set_flag atoi flag value args)

-- `tv_sec` of the rotation; the product of two ints is its 32-bit pattern.
abbrev pub rotation_secs : (ℕ → ℕ) → ℕ → ℕ → ℕ
rotation_secs seconds_to_midnight next_rotation ct =
    if next_rotation == 24 then seconds_to_midnight ct else next_rotation * an_hour_in_secs % 2 ^ 32

-- "localhost", HWDB_SERVER_PORT, and a day.
abbrev pub default_args : Args
default_args = record {
  host = b'l' ∷ b'o' ∷ b'c' ∷ b'a' ∷ b'l' ∷ b'h' ∷ b'o' ∷ b's' ∷ b't' ∷ [];
  port = 987;
  directory = none;
  next_rotation = 24;
}

-- The checks of the command line. A pattern of 2 ^ 31 or more is a negative number.
unfoldable pub start : (Text → ℕ) → (ℕ → ℕ) → ℕ → List Text → Outcome (Args × ℕ)
unfolding read_args
start atoi seconds_to_midnight ct argv = read_args atoi argv default_args >>= λ args.
    elim args.directory [
      | none ↦ exits 255
      | some directory ↦
          if args.next_rotation == 0 || leb (2 ^ 31) args.next_rotation
          then exits 255
          else done (args, rotation_secs seconds_to_midnight args.next_rotation ct)
    ]
