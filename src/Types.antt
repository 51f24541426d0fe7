-- ===== src/Types.antt =====
-- The data that agents, plans and engines exchange (packages/agent-sdk/src/types).
mod Common
mod Steps
mod Manifest
mod Context
mod Results
pub use Common.*
pub use Steps.*
pub use Manifest.*
pub use Context.*
pub use Results.*
