-- ===== src/Cluster.antt =====
-- cppzmq_playground/data_center/cluster_broker.h and cluster_broker.cpp: a cluster's load
-- balancing broker, its clients and its workers.
pub mod Broker
pub mod Worker
pub mod Client
pub mod Balancer
pub mod Routing
pub mod Refinement
pub mod Answers
pub mod Traffic
pub mod Loop
pub mod Config
pub mod Assembly
pub mod Naming
pub mod Startup
