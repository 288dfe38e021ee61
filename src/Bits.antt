-- ===== src/Bits.antt =====
-- The binary digits of C's unsigned integers, and what `&`, `|`, `~`, `<<` and the compiler's
-- count of trailing zeros do to them, at every width.
mod Step
mod Digits
mod Ctz
mod Fields
pub use Digits.*
pub use Fields.*
unfoldable pub use Ctz.*
