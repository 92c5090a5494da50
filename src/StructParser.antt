-- ===== src/StructParser.antt =====
-- src/JSON/StructParser.hpp, src/JSON/StructParserMacros.hpp: the events of a JSON parser written
-- into a C++ object, by fillers that point into it.
pub mod Target
pub mod Filler
pub mod Machine
pub mod Document
pub mod Types
pub mod Keys
pub mod Sorting
