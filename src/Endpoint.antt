-- ===== src/Endpoint.antt =====
-- endpoint.c and endpoint.h: the endpoint of a connection, with its equality test and its hash.
-- The bytes of a `struct sockaddr_in` are a list of 16 numbers below 256. `htonl` and its
-- companions belong to the system's headers, and are the interface `ByteOrder`.
pub mod Equal
pub mod Hash
use hwdb_opendpi.Prelude.{
  ℕ, zero, suc, ◌+◌, ◌*◌, ◌%◌, ◌^◌, ◌<◌, ◌≡◌, Bool, true, false, List, [], ◌∷◌, ◌==◌, if◌then◌else◌,
}

-- What the code relies on of <netinet/in.h>.
pub record ByteOrder : Type 0 where
  pub htonl : ℕ → ℕ
  pub ntohl : ℕ → ℕ
  pub htons : ℕ → ℕ
  pub ntohs : ℕ → ℕ
  pub ntohl-htonl : (x : ℕ) → ntohl (htonl x) ≡ x % 2 ^ 32
  pub htonl-ntohl : (x : ℕ) → htonl (ntohl x) ≡ x % 2 ^ 32
  pub ntohs-htons : (x : ℕ) → ntohs (htons x) ≡ x % 2 ^ 16
  pub htons-ntohs : (x : ℕ) → htons (ntohs x) ≡ x % 2 ^ 16
  pub ntohl-lt : (x : ℕ) → ntohl x < 2 ^ 32

-- The bytes of a `struct sockaddr_in`.
abbrev pub SockAddr : Type 0
SockAddr = List ℕ

abbrev pub sockaddr_size : ℕ
sockaddr_size = 16

pub record RpcEndpoint : Type 0 where
  pub addr : SockAddr
  pub subport : ℕ

-- The loop compares `n` bytes. A read past the end of a list is not equal to anything.
unfoldable pub memeq : List ℕ → List ℕ → ℕ → Bool
memeq s t zero = true
memeq [] t (suc n) = false
memeq (x ∷ s) [] (suc n) = false
memeq (x ∷ s) (y ∷ t) (suc n) = if x == y then memeq s t n else false

-- `ep` is filled in, so its old value does not matter.
unfoldable pub endpoint_complete : ⦃net : ByteOrder⦄ → SockAddr → ℕ → RpcEndpoint
endpoint_complete ⦃net⦄ addr subport = record { addr = addr; subport = net.htonl subport }

-- The first argument of the inner call is compared with itself, as in the source.
unfoldable pub endpoint_equal : RpcEndpoint → RpcEndpoint → Bool
endpoint_equal ep1 ep2 =
    if memeq ep1.addr ep1.addr sockaddr_size then ep1.subport == ep2.subport else false

abbrev pub shift : ℕ
shift = 7

-- `unsigned hash`, over the bytes of the address.
unfoldable pub hash_bytes : List ℕ → ℕ → ℕ → ℕ
hash_bytes [] limit hash = hash
hash_bytes (p ∷ ps) limit hash = hash_bytes ps limit ((shift * hash + p) % 2 ^ 32 % limit)

-- The last sum is made in `unsigned long`, the type of `subport`.
unfoldable pub endpoint_hash : RpcEndpoint → ℕ → ℕ
unfolding hash_bytes
endpoint_hash ep limit = (shift * hash_bytes ep.addr limit 0 % 2 ^ 32 + ep.subport) % 2 ^ 64 % limit

-- The copy has the bytes of the original.
unfoldable pub endpoint_duplicate : RpcEndpoint → RpcEndpoint
endpoint_duplicate ep = record { addr = ep.addr; subport = ep.subport }
