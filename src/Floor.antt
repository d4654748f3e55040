-- ===== src/Floor.antt =====
-- A cluster at work: its broker and its workers as data_center runs them, each in its own thread,
-- with the messages that are on their way between them.
pub mod Run
pub mod View
pub mod Letters
pub mod Tokens
pub mod Sums
pub mod Promises
pub mod Hub
pub mod Round
pub mod Benches
pub mod Sockets
pub mod Carrying
pub mod Reports
pub mod Ledgers
pub mod Reachable
pub mod Honest
pub mod Places
pub mod Safety
pub mod Drain
pub mod Rest
