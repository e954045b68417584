-- ===== src/Json/RoundTrip.antt =====
-- src/core/json_codec.cpp: what `Parser` makes of a text that `append_json` wrote.
pub mod Numbers
pub mod Fields
pub mod Strings
pub mod Blanks
pub mod Printed
pub mod Steps
pub mod Mapped
pub mod Ascii
pub mod Nested
pub mod Values
