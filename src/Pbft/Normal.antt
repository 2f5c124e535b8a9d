-- ===== src/Pbft/Normal.antt =====
-- The handlers of src/pbft/node.go for client requests, pre-prepares, prepares and commits. `none`
-- is a panic. A log line has no effect here.
mod Requests
mod PrePrepares
mod Quorums
unfoldable pub use Requests.*
unfoldable pub use PrePrepares.*
unfoldable pub use Quorums.*
