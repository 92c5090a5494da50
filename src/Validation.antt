-- ===== src/Validation.antt =====
-- src/utils: the rules on the fields of a JSON input, and the validator that runs them.
pub mod Rules
pub mod Input
