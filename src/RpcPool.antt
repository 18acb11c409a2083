-- ===== src/RpcPool.antt =====
-- The pool of RPC endpoints: packages/web3/src/rpc-pool.ts.
pub mod Wire
pub mod Endpoints
pub mod Request
pub mod BatchReply
pub mod Batch
pub mod Order
pub mod Health
pub mod Reachable
pub mod Outcomes
pub mod Failover
pub mod Truthful
pub mod Refinement
