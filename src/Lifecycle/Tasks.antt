-- ===== src/Lifecycle/Tasks.antt =====
-- AsyncRun of cluster_core.h with the thread that runs its runTask, a loop of rounds, and the tasks of
-- OneCluster. A round can wait for a message for ever.
use sim_tools.Base.{
  ℕ, zero, suc, ◌+◌, Bool, true, false, Option, none, some, List, [], ◌∷◌, if◌then◌else◌,
}
use sim_tools.Base.Outcome.{Outcome, done, blocked, thrown, ◌>>=◌}

-- Where the thread is: at the loop's test, in the loop's body, or out of runTask.
pub data Place : Type 0 where
  at_test in_round at_end : Place

-- The loop of a runTask: one that tests stopTask_, as those of Client, Worker, OneCluster and
-- ClusterStateReporter, or one that does not, as that of LocalBalanceBroker.
pub data Loop : Type 0 where
  while_running while_true : Loop

-- taskHandle_ is none where it is not joinable.
pub record AsyncRun : Type 0 where
  pub loop : Loop
  pub task_handle : Option Place
  pub stop_flag : Bool
  pub rounds : ℕ

-- The constructor.
unfoldable pub make_async : Loop → AsyncRun
make_async l = record { loop = l; task_handle = none; stop_flag = false; rounds = 0 }

-- The assignment to a thread that is joinable calls std::terminate.
unfoldable pub start_task : AsyncRun → Outcome AsyncRun
start_task t = elim t.task_handle [
  | none ↦ done (record t { task_handle = some at_test })
  | some place ↦ thrown
]

-- join waits for a thread that still runs.
unfoldable pub wait : AsyncRun → Outcome AsyncRun
wait t = elim t.task_handle [
  | none ↦ done t
  | some at_test ↦ blocked
  | some in_round ↦ blocked
  | some at_end ↦ done (record t { task_handle = none })
]

-- stopTask: the flag, and then the join. The destructor is the same.
abbrev pub raise_flag : AsyncRun → AsyncRun
raise_flag t = record t { stop_flag = true }

unfoldable pub stop_task : AsyncRun → Outcome AsyncRun
stop_task t = wait (raise_flag t)

-- The condition of the loop.
unfoldable pub goes_on : AsyncRun → Bool
goes_on t = elim t.loop [ while_running ↦ if t.stop_flag then false else true | while_true ↦ true ]

-- A turn of the thread. `returns` says whether the call that it waits in, if it is in a round, has
-- returned: the turn of a thread whose round still waits changes nothing.
unfoldable pub turn : Bool → AsyncRun → AsyncRun
turn returns t = elim t.task_handle [
  | none ↦ t
  | some at_test ↦ record t { task_handle = if goes_on t then some in_round else some at_end }
  | some in_round ↦
      if returns then record t { task_handle = some at_test; rounds = t.rounds + 1 } else t
  | some at_end ↦ t
]

unfoldable pub turns : List Bool → AsyncRun → AsyncRun
turns [] t = t
turns (x ∷ xs) t = turns xs (turn x t)

-- The tasks of a OneCluster.
pub record ClusterTasks : Type 0 where
  pub local_balancer : AsyncRun
  pub cluster_state : AsyncRun
  pub clients : List AsyncRun
  pub workers : List AsyncRun

unfoldable pub start_each : List AsyncRun → Outcome (List AsyncRun)
start_each [] = done []
start_each (t ∷ ts) = do t' ← start_task t; ts' ← start_each ts; done (t' ∷ ts')

unfoldable pub wait_each : List AsyncRun → Outcome (List AsyncRun)
wait_each [] = done []
wait_each (t ∷ ts) = do t' ← wait t; ts' ← wait_each ts; done (t' ∷ ts')

-- OneCluster's runTask before its loop.
unfoldable pub start_cluster : ClusterTasks → Outcome ClusterTasks
start_cluster c = do
  balancer ← start_task c.local_balancer
  state ← start_task c.cluster_state
  clients ← start_each c.clients
  workers ← start_each c.workers
  done (record {
    local_balancer = balancer;
    cluster_state = state;
    clients = clients;
    workers = workers;
  })

-- The body of OneCluster's destructor.
unfoldable pub destroy_cluster : ClusterTasks → Outcome ClusterTasks
destroy_cluster c = do
  clients ← wait_each c.clients
  workers ← wait_each c.workers
  balancer ← wait c.local_balancer
  state ← wait c.cluster_state
  done (record {
    local_balancer = balancer;
    cluster_state = state;
    clients = clients;
    workers = workers;
  })

-- Whose turn it is, and whether its round returns.
pub data Turn : Type 0 where
  balancer_turn state_turn : Bool → Turn
  client_turn worker_turn : Bool → ℕ → Turn

abbrev pub turn_at : Bool → ℕ → List AsyncRun → List AsyncRun
turn_at x i [] = []
turn_at x zero (t ∷ ts) = turn x t ∷ ts
turn_at x (suc i) (t ∷ ts) = t ∷ turn_at x i ts

unfoldable pub cluster_turn : Turn → ClusterTasks → ClusterTasks
cluster_turn (balancer_turn x) c = record c { local_balancer = turn x c.local_balancer }
cluster_turn (state_turn x) c = record c { cluster_state = turn x c.cluster_state }
cluster_turn (client_turn x i) c = record c { clients = turn_at x i c.clients }
cluster_turn (worker_turn x i) c = record c { workers = turn_at x i c.workers }

unfoldable pub cluster_turns : List Turn → ClusterTasks → ClusterTasks
cluster_turns [] c = c
cluster_turns (t ∷ ts) c = cluster_turns ts (cluster_turn t c)
