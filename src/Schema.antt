-- ===== src/Schema.antt =====
-- The data of prisma/schema.prisma: enumerations, rows, and the store that holds the tables.
pub mod Enums
pub mod Accounts
pub mod Listings
pub mod Stays
pub mod Social
pub mod Database
pub use Enums.*
pub use Accounts.*
pub use Listings.*
pub use Stays.*
pub use Social.*
pub use Database.*
