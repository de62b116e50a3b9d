-- ===== src/Str.antt =====
-- Rust's `str` and byte slices, as far as the program uses them. A `str` is the list of its code
-- points, a byte slice the list of its bytes; a position counts code points where Rust counts
-- bytes, since the program only ever cuts a text at a position that a search has returned.
pub mod Ascii
pub mod Search
pub mod Split
pub mod Number
pub mod Utf8
pub mod Length
pub mod Bag
