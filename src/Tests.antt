-- ===== src/Tests.antt =====
-- Concrete inputs: the theorems at values that meet their hypotheses, and runs of the definitions.
mod Data
mod Core
mod Cluster
mod Super
mod Trips
mod Rpc
mod Balance
mod Hall
mod Startup
mod Direct
mod Topics
mod Floor
mod Honest
mod Weather
mod Lifecycle
