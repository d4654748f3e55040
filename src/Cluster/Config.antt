-- ===== src/Cluster/Config.antt =====
-- The configuration of a cluster: ClusterCfg of cluster_core.h, the command line of cluster_main.cpp,
-- and the names that ClusterHelper::buildCluster gives to clients and workers.
use sim_tools.Base.{
  ℕ, zero, suc, ◌+◌, ◌/◌, ◌%◌, List, [], ◌∷◌, ◌++◌, Option, none, some, ltb, if◌then◌else◌,
}
use sim_tools.Base.Bytes.{Bytes}
use sim_tools.Base.Outcome.{Outcome, done, fault, ◌>>=◌}

pub record SuperBrokerCfg : Type 0 where
  pub ip : Bytes
  pub pull_state_port : Bytes
  pub task_port : Bytes

pub record ClusterCfg : Type 0 where
  pub cluster_name : Bytes
  pub worker_num : ℕ  -- uint32_t
  pub client_num : ℕ  -- uint32_t
  pub super_broker_cfg : SuperBrokerCfg
  pub local_frontend : Bytes
  pub local_backend : Bytes

-- "127.0.0.1", "55550" and "55560".
unfoldable pub default_super_broker_cfg : SuperBrokerCfg
default_super_broker_cfg = record {
  ip = 49 ∷ 50 ∷ 55 ∷ 46 ∷ 48 ∷ 46 ∷ 48 ∷ 46 ∷ 49 ∷ [];
  pull_state_port = 53 ∷ 53 ∷ 53 ∷ 53 ∷ 48 ∷ [];
  task_port = 53 ∷ 53 ∷ 53 ∷ 54 ∷ 48 ∷ [];
}

-- "5558" and "5559" with the digit of the cluster.
abbrev pub k_local_frontend : List Bytes
k_local_frontend =
    (53 ∷ 53 ∷ 53 ∷ 56 ∷ 48 ∷ [])
    ∷ (53 ∷ 53 ∷ 53 ∷ 56 ∷ 49 ∷ [])
    ∷ (53 ∷ 53 ∷ 53 ∷ 56 ∷ 50 ∷ [])
    ∷ []

abbrev pub k_local_backend : List Bytes
k_local_backend =
    (53 ∷ 53 ∷ 53 ∷ 57 ∷ 48 ∷ [])
    ∷ (53 ∷ 53 ∷ 53 ∷ 57 ∷ 49 ∷ [])
    ∷ (53 ∷ 53 ∷ 53 ∷ 57 ∷ 50 ∷ [])
    ∷ []

-- An element of an array.
abbrev pub element : List Bytes → ℕ → Outcome Bytes
element [] i = fault
element (x ∷ xs) zero = done x
element (x ∷ xs) (suc i) = element xs i

-- main of cluster_main.cpp up to the configuration, which is none where it returns -1. `atoi` gives
-- the int as its word of 32 bits, so a negative index is one that no array has.
unfoldable pub configure : (Bytes → ℕ) → List Bytes → Outcome (Option ClusterCfg)
configure atoi (program ∷ name ∷ index ∷ clients ∷ workers ∷ []) = do
  frontend ← element k_local_frontend (atoi index)
  backend ← element k_local_backend (atoi index)
  done (
      some (record {
        cluster_name = name ++ 95 ∷ index;
        worker_num = atoi workers;
        client_num = atoi clients;
        super_broker_cfg = default_super_broker_cfg;
        local_frontend = frontend;
        local_backend = backend;
      }))
configure atoi _ = done none

-- std::to_string of an int that is not negative, in at most so many digits.
unfoldable pub decimal : ℕ → ℕ → Bytes
decimal zero n = []
decimal (suc digits) n =
    let front = decimal digits (n / 10) in
    if ltb n 10 then (48 + n) ∷ [] else front ++ (48 + n % 10) ∷ []

abbrev pub to_string : ℕ → Bytes
to_string n = decimal 10 n

-- "client_" and "worker_" with the number.
unfoldable pub client_name : ℕ → Bytes
client_name i = 99 ∷ 108 ∷ 105 ∷ 101 ∷ 110 ∷ 116 ∷ 95 ∷ to_string i

unfoldable pub worker_name : ℕ → Bytes
worker_name i = 119 ∷ 111 ∷ 114 ∷ 107 ∷ 101 ∷ 114 ∷ 95 ∷ to_string i
