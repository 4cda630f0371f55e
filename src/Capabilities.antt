-- ===== src/Capabilities.antt =====
-- The extraction of capabilities from a command (apps/server/src/capabilities.ts).
mod Sets
pub mod Scripts
mod Secrets
pub mod Networks
pub mod Writes
mod Decoders
pub mod Payloads
pub mod Extract
pub mod Carveout
mod Tests
unfoldable pub use Sets.*
unfoldable pub use Scripts.*
unfoldable pub use Secrets.*
unfoldable pub use Networks.*
unfoldable pub use Writes.*
unfoldable pub use Decoders.*
unfoldable pub use Payloads.*
unfoldable pub use Extract.*
unfoldable pub use Carveout.*
