-- ===== src/Endpoint/Hash.antt =====
-- endpoint.c: the range of `endpoint_hash`.
use hwdb_opendpi.Prelude.{ℕ, ◌<◌, arith}
use hwdb_opendpi.Endpoint.{RpcEndpoint, endpoint_hash}

-- The hash is an index below the limit, so a bucket of the connection table.
pub endpoint_hash-lt : (ep : RpcEndpoint) (limit : ℕ) → 0 < limit → endpoint_hash ep limit < limit
unfolding endpoint_hash
endpoint_hash-lt ep limit h = omega arith
