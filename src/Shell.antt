-- ===== src/Shell.antt =====
-- The shell parser (apps/server/src/shell-parse.ts): the commands that a text would run, and the
-- hosts that they name.
mod Quoting
pub mod Words
mod Substitutions
pub mod Segments
mod Names
pub mod Invocations
mod Options
mod Hosts
pub mod Tools
mod Commands
mod Tests
unfoldable pub use Quoting.*
unfoldable pub use Words.*
unfoldable pub use Substitutions.*
unfoldable pub use Segments.*
unfoldable pub use Names.*
unfoldable pub use Invocations.*
unfoldable pub use Options.*
unfoldable pub use Hosts.*
unfoldable pub use Tools.*
unfoldable pub use Commands.*
