-- ===== src/Srpc/Start.antt =====
-- srpc.c: rpc_init, rpc_reinit and common_init, which make the tables, the socket and the two
-- threads, and the state that everything else begins from. The answers of the system are an
-- argument.
use hwdb_opendpi.Prelude.{
  ℕ, ◌<◌, ◌≡◌, refl, Bool, true, false, ◌&&◌, Option, some, none, List, [], ◌∷◌, if◌then◌else◌,
  arith, get_or-replicate, length-replicate,
}
use hwdb_opendpi.Endpoint.{ByteOrder, RpcEndpoint, endpoint_hash}
use hwdb_opendpi.Stable.{Name, SRecord, stable_size, stable_init}
use hwdb_opendpi.Ctable.{ctable_size, ctable_init, ctable_purge, ctable_lookup, find}
use hwdb_opendpi.Ctable.Invariant.{ctable_init-IsTable}
use hwdb_opendpi.Srpc.{Srpc, Queue}
use hwdb_opendpi.Srpc.Reader.Keeps.{IsSrpc}
use hwdb_opendpi.Srpc.Runs.{Reach, Reach-IsSrpc}

-- `bound_port` is the port that getsockname gives, which is another one than asked for if that is
-- 0.
pub record Answers : Type 0 where
  pub binds : Bool
  pub bound_port : ℕ
  pub reader_starts : Bool
  pub timer_starts : Bool

-- `my_name` and `my_port`
pub record Own : Type 0 where
  pub my_name : List ℕ
  pub my_port : ℕ

unfoldable pub common_init : Answers → Own → Bool × Own
common_init a own =
    if a.binds
    then (let own' : Own = record own { my_port = a.bound_port } in
        if a.reader_starts
        then (if a.timer_starts then (true, own') else (false, own'))
        else (false, own'))
    else (false, own)

-- "127.0.0.1"
abbrev pub local_host : Name
local_host = b'1' ∷ b'2' ∷ b'7' ∷ b'.' ∷ b'0' ∷ b'.' ∷ b'0' ∷ b'.' ∷ b'1' ∷ []

-- `host` is the text of the address that gethostbyname finds for the host's own name.
abbrev pub name_of : Option (List ℕ) → List ℕ
name_of none = local_host
name_of (some text) = text

unfoldable pub rpc_init : Answers → Option (List ℕ) → Own → Srpc → Bool × Own × Srpc
unfolding common_init
rpc_init a host own s =
    let r = common_init a (record own { my_name = name_of host }) in
    (r.0, r.1, record s { ctable = ctable_init; stable = stable_init })

unfoldable pub rpc_reinit : Answers → Own → Srpc → Bool × Own × Srpc
unfolding common_init
rpc_reinit a own s =
    let r = common_init a own in (r.0, r.1, record s { ctable = ctable_purge s.ctable })

module _ ⦃net : ByteOrder⦄ where
  -- rpc_init succeeds exactly when the socket is bound and both threads start. No connection is
  -- known then, and in whatever order datagrams, ticks and calls follow, the shared state stays
  -- well-formed.
  pub rpc_init-Reach :
      (a : Answers) (host : Option (List ℕ)) (own : Own) (s : Srpc)
      → 0 < s.brk
      → ((rpc_init a host own s).0 ≡ a.binds && (a.reader_starts && a.timer_starts))
        × ((ep : RpcEndpoint) → ctable_lookup (rpc_init a host own s).2.ctable ep ≡ none)
        × ((t : Srpc) → Reach (rpc_init a host own s).2 t → IsSrpc t)
  unfolding rpc_init ctable_lookup ctable_init find stable_init
  rpc_init-Reach a host own s alive = (
    ground arith,
    λ ep. rw (get_or-replicate ctable_size (endpoint_hash ep ctable_size)) refl,
    λ t run.
        Reach-IsSrpc (rpc_init a host own s).2 t
          (record {
            table = ctable_init-IsTable s.brk;
            alive = alive;
            services = length-replicate {A = List (SRecord Queue)} stable_size [];
          })
          run,
  )
