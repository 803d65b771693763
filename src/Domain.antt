-- ===== src/Domain.antt =====
-- domain/models.py: the types that the components pass to one another.
mod Enums
mod Market
mod Trading
mod Records
mod Reports
pub mod Laws
pub use Enums.*
unfoldable pub use Market.*
unfoldable pub use Trading.*
pub use Records.*
pub use Reports.*
