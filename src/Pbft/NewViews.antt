-- ===== src/Pbft/NewViews.antt =====
-- `handleViewChange`, `handleNewView` and `generatePrepreparesForNewView` of src/pbft/view_change.go.
-- `none` ends the process: a panic, or a signature that fails where the source logs a fatal error.
mod Surveying
mod Leading
mod Entering
unfoldable pub use Surveying.*
unfoldable pub use Leading.*
unfoldable pub use Entering.*
