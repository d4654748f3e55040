-- ===== src/Core.antt =====
-- cppzmq_playground/data_center/cluster_core.h and cluster_core.cpp: the types that the parts of
-- the data center share, and the helpers on strings, buffers and message frames.
pub mod Types
pub mod Text
pub mod Wire
pub mod Doubles
pub mod Names
pub mod Layout
pub mod Address
pub mod Envelope
