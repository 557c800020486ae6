-- ===== src/Bits.antt =====
-- Bits of machine words: `&`, `|`, `^` and shifts of ones, read digit by digit.
mod Step
mod Digits
mod Words
unfoldable pub use Digits.*
unfoldable pub use Words.*
