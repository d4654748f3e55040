-- ===== src/Cluster/Startup.antt =====
-- What holds when a cluster is started: its command line, and the parts of a new cluster.
use sim_tools.Base.{ℕ, zero, suc, ◌≤◌, ◌≡◌, refl, subst, ◌↔◌, [], ◌∷◌, Option, arith}
use sim_tools.Base.Bytes.{Bytes}
use sim_tools.Base.Outcome.{done, fault, ◌>>=◌}
use sim_tools.Core.Types.{
  TaskDirection, default_meta, default_state_info, IsStateInfo, alive_signal, type_code,
  direction_code,
}
use sim_tools.Core.Text.{c_string, string_to_zmq_msg}
use sim_tools.Core.Names.{IsName, copy_name-done}
use sim_tools.Core.Wire.{encode_meta}
use sim_tools.Core.Envelope.{Represents, Encodes, put_from_cluster_id-Yields, retag}
use sim_tools.Cluster.Broker.{Broker, cloud_task, make_broker}
use sim_tools.Cluster.Routing.{IsBroker}
use sim_tools.Cluster.Answers.{blank, blank-Represents}
use sim_tools.Cluster.Config.{ClusterCfg, element, k_local_frontend, k_local_backend, configure}
use sim_tools.Cluster.Assembly.{Reporter, OneCluster, make_reporter, make_cluster}

-- A reporter whose structure holds its cluster's name.
pub record IsReporter (r : Reporter) : Type 0 where
  pub info_ok : IsStateInfo r.state_info
  pub name_read : c_string r.state_info.cluster_name ≡ done r.cluster_name

-- The constructor makes one for every name that fits.
make_reporter-IsReporter :
    (name : Bytes)
    → IsName name
    → (r : Reporter) × (make_reporter name ≡ done r)
      × IsReporter r
      × (r.cluster_name ≡ name)
      × (r.updates ≡ [])
unfolding make_reporter default_state_info
make_reporter-IsReporter name ok =
    let (b, e, is_buffer, read) =
      copy_name-done default_state_info.cluster_name name (omega arith) ok in
    (
      record {
        cluster_name = name;
        state_info = record { cluster_name = b; ready_worker_count = 0 };
        updates = [];
        pushed = [];
      },
      rw e refl,
      record { info_ok = record { name_ok = is_buffer; count_ok = omega arith }; name_read = read },
      refl,
      refl,
    )

-- The two arrays of ports have three elements.
pick_ports :
    (i : ℕ) (k : Bytes → Bytes → Option ClusterCfg)
    → ((element k_local_frontend i >>= λ f. element k_local_backend i >>= λ b. done (k f b))
        ≡ fault)
      ↔ (3 ≤ i)
pick_ports zero k = (λ e. cc, λ h. absurd (omega arith))
pick_ports (suc zero) k = (λ e. cc, λ h. absurd (omega arith))
pick_ports (suc (suc zero)) k = (λ e. cc, λ h. absurd (omega arith))
pick_ports (suc (suc (suc i))) k = (λ e. omega arith, λ h. refl)

-- The command line of a cluster reads outside the arrays of ports exactly for an index that is not
-- 0, 1 or 2, which the program does not test.
pub configure-fault :
    (atoi : Bytes → ℕ) (program name index clients workers : Bytes)
    → (configure atoi (program ∷ name ∷ index ∷ clients ∷ workers ∷ []) ≡ fault) ↔ (3 ≤ atoi index)
unfolding configure
configure-fault atoi program name index clients workers = pick_ports (atoi index) _

-- A broker that has not read anything.
abbrev pub IsFresh : Bytes → Broker → Type 0
IsFresh name b =
    (b.cluster_name ≡ name)
    × (b.work_ready_queue ≡ [])
    × (b.back_end_input ≡ [])
    × (b.front_end_input ≡ [])
    × (b.cloud_task_input ≡ [])

-- A broker that starts under a name that fits is well formed, and sends a signal with this name.
pub make_broker-IsBroker :
    (name : Bytes)
    → IsName name
    → (b : Broker) × (make_broker name ≡ done b)
      × IsBroker b
      × ((g : Bytes) × Encodes g (record blank { from_cluster = name; kind = alive_signal })
          × (b.log ≡ cloud_task (g ∷ string_to_zmq_msg [] ∷ []) ∷ []))
      × IsFresh name b
unfolding make_broker type_code direction_code default_meta
make_broker-IsBroker name ok =
    let (m, p, r) =
      put_from_cluster_id-Yields default_meta blank name (blank-Represents 0 (omega arith)) ok in
    let tagged = retag m _ m.task_direction alive_signal r r.meta_ok.direction_ok (omega arith) in
    let r1 =
      subst
        (λ (d : TaskDirection).
          Represents (record m { task_type = alive_signal })
            (record blank { from_cluster = name; kind = alive_signal; direction = d }))
        r.direction_eq tagged in
    let g = encode_meta (record m { task_type = alive_signal }) in
    (
      record {
        work_ready_queue = [];
        ready_worker_count = 0;
        cluster_name = name;
        front_end_input = [];
        back_end_input = [];
        cloud_task_input = [];
        log = cloud_task (g ∷ string_to_zmq_msg [] ∷ []) ∷ [];
      },
      rw p refl,
      record { name_ok = ok; workers_ok = tt; count_ok = refl },
      (g, (_, refl, r1), refl),
      (refl, refl, refl, refl, refl),
    )

-- A cluster whose name fits starts without a fault, with a well-formed broker that has announced
-- the cluster, a reporter under its name, and no client or worker yet.
pub make_cluster-parts :
    (cfg : ClusterCfg)
    → IsName cfg.cluster_name
    → (c : OneCluster) × (make_cluster cfg ≡ done c)
      × IsBroker c.local_balancer
      × ((g : Bytes) × Encodes g
            (record blank { from_cluster = cfg.cluster_name; kind = alive_signal })
          × (c.local_balancer.log ≡ cloud_task (g ∷ string_to_zmq_msg [] ∷ []) ∷ []))
      × IsReporter c.cluster_state
      × (c.cluster_state.cluster_name ≡ cfg.cluster_name)
      × (c.cluster_state.updates ≡ [])
      × (c.clients ≡ [])
      × (c.workers ≡ [])
unfolding make_cluster default_state_info
make_cluster-parts cfg ok =
    let (buffer, e0, is_buffer, read) =
      copy_name-done default_state_info.cluster_name cfg.cluster_name (omega arith) ok in
    let (b, e1, broker_ok, signal, fresh) = make_broker-IsBroker cfg.cluster_name ok in
    let (r, e2, reporter_ok, same_name, quiet) = make_reporter-IsReporter cfg.cluster_name ok in
    (
      record {
        cluster_name = cfg.cluster_name;
        cluster_cfg = cfg;
        state_info = record default_state_info { cluster_name = buffer };
        local_balancer = b;
        cluster_state = r;
        clients = [];
        workers = [];
      },
      rw (e0, e1, e2) refl,
      broker_ok,
      signal,
      reporter_ok,
      same_name,
      quiet,
      refl,
      refl,
    )
