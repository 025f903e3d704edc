-- ===== src/Types.antt =====
-- types.go and errors.go: the data that the components exchange.
mod Errors
mod Events
mod Devices
mod Messages
mod Dispatch
mod Targets
pub mod Fid
unfoldable pub use Errors.*
unfoldable pub use Events.*
unfoldable pub use Devices.*
pub use Targets.*
pub use Messages.*
unfoldable pub use Dispatch.*
