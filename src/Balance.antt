-- ===== src/Balance.antt =====
-- load_balance/load_balance.cpp: a broker that hands the tasks of clients to the workers that wait.
pub mod Broker
pub mod Dispatching
pub mod Order
pub mod Rounds
pub mod Waiting
pub mod Tasks
pub mod Worker
pub mod Client
pub mod Trips
pub mod Hall
