-- ===== src/Tests.antt =====
-- Runs of the models at concrete inputs, and the theorems at concrete arguments.
mod Pool
mod Worker
mod Frames
mod Fields
mod Structs
mod Values
mod Tables
mod Formats
mod Queries
mod Requests
mod Buffers
