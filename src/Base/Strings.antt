-- ===== src/Base/Strings.antt =====
-- Texts as lists of code points, with the operations of Rust's `str` that the program calls.
mod Equality
mod Chars
mod Split
mod Order
mod Sets
mod Decimal
unfoldable pub use Equality.*
unfoldable pub use Chars.*
unfoldable pub use Split.*
unfoldable pub use Order.*
unfoldable pub use Sets.*
unfoldable pub use Decimal.*
