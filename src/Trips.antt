-- ===== src/Trips.antt =====
-- A task's way through the data center: the handlers of the client, the brokers and the worker
-- applied one after the other, each to the frames that the one before it has sent.
pub mod Inversion
pub mod Local
pub mod Steps
pub mod Cloud
pub mod Return
pub mod Report
