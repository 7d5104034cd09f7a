-- ===== src/Base.antt =====
-- Names that the other modules share: the libraries', passed on, and those of the children.
pub mod Tests
pub mod Lists
pub mod Strings
pub mod Sort
pub mod Map
pub mod Decimal
pub mod Int
unfoldable pub use Tests.*
unfoldable pub use Lists.*
unfoldable pub use Strings.*
unfoldable pub use Map.*
unfoldable pub use Decimal.*
pub use Int.*
unfoldable pub use Sort.{insert, sort, sort_strings}
