-- ===== src/Examples.antt =====
-- Runs of the models on concrete inputs.
mod Codec
mod Hlc
mod Clock
mod Tables
mod Log
mod Chain
mod Validate
mod Segment
mod Ops
mod Packs
mod Events
mod Inits
mod Plaintext
mod Joins
