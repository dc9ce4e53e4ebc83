-- ===== src/Index.antt =====
-- The request handlers of the index (src/libredp2p.c, `redp2p_index_*`): JSON accessors, replies and
-- field validation. The handlers themselves are in Index/Publishers, Index/Punch and
-- Index/Dispatch.
--
-- parson, the JSON library, is known only by what its calls answer: a request object is the record
-- of the accessors' answers on it, and `Env` holds the answers of its allocator and serializer.
mod Json
pub mod Failure
pub mod Fields
pub mod Publishers
pub mod Punch
pub mod Dispatch
pub mod Endpoint
pub mod Invariant
pub mod Adding
pub mod Rules
pub mod DispatchRule
pub mod Preserve
pub mod Register
pub mod Proven
pub mod Access
pub mod Calls
pub mod Registry
pub mod Tests
mod Examples
unfoldable pub use Json.*
