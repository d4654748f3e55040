-- ===== src/Direct.antt =====
-- dummy_proxy and dummy_async_server: clients and workers that zmq::proxy connects, and
-- router_request: clients that ask a router for a topic.
pub mod Proxy
pub mod ProxyProgram
pub mod Async
pub mod Answers
pub mod ProxySession
pub mod AsyncSession
pub mod Topics
pub mod TopicAnswers
