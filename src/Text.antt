-- ===== src/Text.antt =====
-- src/utils/Strutils.hpp and src/utils/StrFormat.hpp: splitting, joining, decoding and formatting
-- text.
pub mod Split
pub mod Url
pub mod Format
