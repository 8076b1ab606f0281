-- ===== src/System.antt =====
-- What the program calls and does not implement: the kernel, std::filesystem, libaio, libusbgx and
-- the macros of libBzhUtils. The answers of the outside are an arbitrary function of all calls made
-- so far, so that a theorem about a run holds whatever the outside does.
pub mod Structs
pub mod Calls
pub mod Monad
pub mod Rules
pub mod Fine
pub mod Undone
pub mod Traffic
pub mod Tidy
pub mod Suffix
pub mod Sample
pub use Structs.*
pub use Calls.*
pub use Monad.*
pub use Rules.*
