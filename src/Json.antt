-- ===== src/Json.antt =====
-- src/core/json_value.cpp and src/core/json_codec.cpp: JSON values, their parser and their printer.
pub mod Value
pub mod Reader
pub mod Parser
pub mod Printer
pub mod Fuel
pub mod Terminates
pub mod RoundTrip
