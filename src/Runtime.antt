-- ===== src/Runtime.antt =====
-- The world around the operator: third-party types, the calls, and programs that make calls.
mod Types
mod Calls
mod Programs
mod Externals
mod Rules
mod Pairs
mod Views
pub use Types.*
pub use Calls.*
pub use Programs.*
pub use Externals.*
pub use Rules.*
pub use Pairs.*
pub use Views.*
