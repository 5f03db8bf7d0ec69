-- ===== src/Tests.antt =====
-- Runs of the modelled code at concrete inputs, and the theorems at inputs where their hypotheses hold.
mod Toy
mod Bitmaps
mod Places
mod Rounds
mod Chunks
mod Blocks
mod Accounts
mod Messages
mod Honest
mod Keys
mod Network
