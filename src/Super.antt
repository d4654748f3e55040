-- ===== src/Super.antt =====
-- cppzmq_playground/data_center/super_broker.h and super_broker.cpp: the broker between clusters.
pub mod ClusterMap
pub mod Selection
pub mod Broker
pub mod Router
pub mod Refinement
