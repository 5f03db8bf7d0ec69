-- ===== src/State.antt =====
-- Mitosis/state: the state database. Calls, Journal, Objects, Accounts, Revert and Roots hold its
-- definitions, the others what is proved of them.
pub mod Calls
pub mod Journal
pub mod Objects
pub mod Accounts
pub mod Revert
pub mod Roots
pub mod Copy
pub mod Copied
pub mod Views
pub mod Balances
pub mod Ledger
pub mod Tracked
pub mod Sound
pub mod Kept
pub mod Settled
pub mod Commit
pub mod Reopen
pub mod Resets
pub mod Undo
pub mod Undone
pub mod Reverted
