-- ===== src/Tests.antt =====
-- Runs of the model, and the theorems at concrete inputs.
mod Batch
mod Codec
mod Commands
mod Database
mod Iterators
mod Recovery
mod Merge
mod Ranges
mod Redis
mod Stored
