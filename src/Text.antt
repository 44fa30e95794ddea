-- ===== src/Text.antt =====
-- `std::string` as a list of bytes: the members of the C++ standard library that the program's
-- files call. A position is a number, and `none` stands for `string::npos`.
mod Basic
mod Find
mod Fields
pub mod Number
unfoldable pub use Basic.*
unfoldable pub use Fields.*
unfoldable pub use Find.*
