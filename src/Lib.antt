-- ===== src/Lib.antt =====
-- A model of the message systems of SimTools' cppzmq_playground: the data center (data_center),
-- the load balancing broker (load_balance), the remote calls of sync_rpc
-- (dummy_rpc_dealer_router), and the smaller dummy_proxy, dummy_async_server, router_request,
-- simple_pubsub_weather_report and simple_push_pull.
--
-- The programs. In the data center a cluster has clients, workers and one LocalBalanceBroker
-- (cluster_broker.cpp). A client sends a task to its broker; the broker gives it to the worker
-- that has waited longest, or, when none waits, to the SuperBroker (super_broker.cpp), which
-- sends it to the cluster that has reported the most ready workers, or back as rejected. A worker
-- answers to its broker, and the answer goes to the client, over the super broker if the client
-- is in another cluster. Messages are ZeroMQ multipart messages; a task's metadata is a C
-- structure, TaskMeta, copied into a frame. The load balancing broker is one such broker on its
-- own, with clients and workers. In sync_rpc clients set and get messages by topic at one server,
-- by protobuf messages in frames.
--
-- The files.
--   Core/Types, Core/Text, Core/Wire, Core/Address, Core/Doubles: cluster_core.h and cluster_core.cpp,
--     and the memcpy calls between structures and frames. A char array is the list of its bytes; a
--     frame is the list of its bytes. MessageHelper::stringToZMQMsg is string_to_zmq_msg, and so on:
--     a function has the source's name in snake case.
--   Core/Names, Core/Layout, Core/Envelope: the laws of these; an Envelope is what a TaskMeta says,
--     with no buffers, and Encodes links it to a frame.
--   Cluster/Broker, Cluster/Worker, Cluster/Client: the classes of cluster_broker.cpp.
--   Cluster/Config, Cluster/Assembly: ClusterCfg, cluster_main.cpp, cluster_state.cpp, OneCluster and
--     ClusterHelper. Cluster/Startup, Cluster/Naming: what holds when a cluster starts.
--   Cluster/Balancer: what the broker promises, by envelopes. Cluster/Routing, Cluster/Refinement:
--     the handlers against that. Cluster/Loop: the poll loop. Cluster/Answers: worker and client.
--   Super/ClusterMap, Super/Selection, Super/Broker: the class of super_broker.cpp, with its map.
--     Super/Router, Super/Refinement: its promise, and the handlers against it.
--   Balance/Broker, Balance/Tasks, Balance/Worker, Balance/Client: the classes of load_balance.cpp, with
--     its structures. Balance/Dispatching: what its broker promises, as a step relation, and
--     Balance/Order what the steps keep. Balance/Rounds, Balance/Waiting: a round and the loop of
--     BalanceBroker::serve against that. Balance/Trips: what a worker makes of a task.
--     Balance/Hall: main of load_balance.cpp, a step for each round of a thread and for each message
--     that a socket carries, in any order. Balance/Hall/Flight, View, Cases, Landing: its states by
--     the messages that are on their way. Balance/Hall/Rounds, Carried, Workers, Customers: the
--     steps; Balance/Hall/Names: who is found by a name; Balance/Hall/Results,
--     Balance/Hall/Returns: what can be reached.
--   Rpc/Messages, Rpc/Service, Rpc/Client: the messages, the server and the client of sync_rpc.h and
--     sync_rpc.cpp. Rpc/Store: what they promise, and a session of clients with the server.
--     Rpc/Refinement, Rpc/Routing: the code against that. Rpc/Programs: dummy_car.cpp and
--     dummy_planning.cpp; Rpc/Exchange: both at one server.
--   PushPull/Tasks, PushPull/Collected: tasks_core.cpp, and what its collector sums up.
--   Direct/Proxy, Direct/Async, Direct/Answers: the workers and clients of dummy_proxy.cpp and
--     dummy_async_server.cpp, and what the clients get. Direct/ProxyProgram, Direct/ProxySession,
--     Direct/AsyncSession: the rounds of their threads.
--   Direct/Topics, Direct/TopicAnswers: the router and client of router_request, and the answers.
--   Lifecycle/Tasks: AsyncRun of cluster_core.h and the tasks of OneCluster; Lifecycle/Stopping: how
--     they stop.
--   Weather/Report: simple_pubsub_weather_report. Weather/Frames, Weather/Rounds,
--     Weather/Broadcast: its frames, the publisher's rounds, and what the subscribers print.
--   Floor/Run: the threads of a cluster, a step for each round of the broker or of a worker and for
--     each message that a socket carries, in any order. Floor/View, Floor/Letters: its states by
--     envelopes, and where each worker's turn is. Floor/Tokens, Floor/Promises, Floor/Hub,
--     Floor/Round: the broker's round and the turns; Floor/Benches, Floor/Sockets, Floor/Carrying,
--     Floor/Reports: the other steps. Floor/Ledgers: what has been sent to the cluster.
--     Floor/Reachable, Floor/Places, Floor/Safety, Floor/Honest: what can be reached. Floor/Sums,
--     Floor/Drain, Floor/Rest: how many moves are left without new requests, and the rest after
--     them.
--   Trips: the handlers of several components one after the other. Tests: concrete inputs.
--
-- How it is modelled. A handler is a function from the object's state to an Outcome: a new state,
-- a wait for a frame, a fault (an access outside an array, or the overflow of a signed
-- integer), or an exception that escapes. A socket's input is the sequence of frames that its recv calls return, and what is passed to send
-- is kept in a log; the frames that sndmore joins are one entry. Of ZeroMQ it is assumed, for the
-- poll loop, that zmq::poll reports only sockets that have a message, in load_balance and where a
-- cluster comes to rest all of them; in Floor and in Balance/Hall, that what a thread has sent is
-- carried on in the order in which it was sent, what a router sends to the one with the identity
-- in its first frame; of zmq::proxy, that it gives each task to some worker and the answer back;
-- and of ZMQ_SUBSCRIBE, that it is a test of the first bytes. Numbers of fixed width wrap where the
-- source lets them. TaskMeta is laid out as on a 64-bit little endian machine with 4-byte
-- enumerations (144 bytes). Doubles are a parameter: eight bytes and an addition. So is what
-- protobuf generates: what is serialised is parsed back if its strings are UTF-8.
--
-- Bounds. The recursion on a cluster's moves is on their number, at most six for a request. The
-- loop of the data center's broker runs over a list of arrivals; there is no fuel. The loop of
-- BalanceBroker has the number of its rounds, and as many rounds as there are messages bring it
-- to the poll at which it waits. The count of ready workers is a uint32_t, so theorems on
-- requests from other clusters ask for a queue shorter than 2 ^ 32.
--
-- Not modelled: the threads inside a round (in Lifecycle a round returns or waits; in Floor and
-- Balance/Hall a round is one step, and the count of ready workers, which another thread reads, is
-- not shared), socket set-up, logging (also its reads of the name buffers), random numbers (arguments), sleeping, and the rest
-- of the repository.
pub mod Base
pub mod Core
pub mod Cluster
pub mod Floor
pub mod Super
pub mod Rpc
pub mod Balance
pub mod PushPull
pub mod Direct
pub mod Weather
pub mod Lifecycle
pub mod Trips
pub mod Tests
