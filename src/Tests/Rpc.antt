-- ===== src/Tests/Rpc.antt =====
-- RPC failures, the pool and the log source at concrete inputs.
use stunks.Prelude.{ℕ, ◌≡◌, refl, some}
use stunks.Prelude.Regex.{codes}
use stunks.RpcErrors.{
  classify_rpc_error_message, parse_allowed_batch_size, log_range_too_wide, block_unavailable,
  upstream_unavailable, batch_too_large, rpc_error, deterministic_error,
}

-- Messages that the source and its tests quote.
messages :
    (classify_rpc_error_message (codes "Ranges over 10000 blocks are not supported")
      ≡ log_range_too_wide)
    × (classify_rpc_error_message (codes "block at number \"123\" could not be found")
        ≡ block_unavailable)
    × (classify_rpc_error_message (codes "all RPC upstreams refused the request - fetch failed")
        ≡ upstream_unavailable)
    × (classify_rpc_error_message
          (codes "Batch of more than 3 requests are not allowed on free plan")
        ≡ batch_too_large)
    × (classify_rpc_error_message (codes "execution reverted: 0x") ≡ deterministic_error)
    × (classify_rpc_error_message (codes "fetch failed") ≡ rpc_error)
unfolding classify_rpc_error_message stunks.Prelude.Regex.test stunks.Prelude.Regex.ends
messages = (refl, refl, refl, refl, refl, refl)

allowed : parse_allowed_batch_size (codes "Batch of more than 3 requests are not allowed") ≡ some 3
unfolding parse_allowed_batch_size
allowed = refl
