-- ===== src/Floor/Reachable.antt =====
-- What can be reached from the constructed broker and workers.
use sim_tools.Base.{ℕ, ◌<◌, ◌^◌, ◌≡◌, refl, sym, ◌∙◌, inl, subst, ◌≢◌, true, Bool, List, [], ◌∷◌}
use sim_tools.Base.Bytes.{Bytes}
use sim_tools.Base.Outcome.{done}
use sim_tools.Core.Doubles.{Doubles}
use sim_tools.Core.Names.{IsName}
use sim_tools.Core.Text.{string_to_zmq_msg}
use sim_tools.Core.Types.{alive_signal, task_reply}
use sim_tools.Cluster.Broker.{Broker, is_alive, make_broker}
use sim_tools.Cluster.Worker.{Worker, make_worker}
use sim_tools.Cluster.Balancer.{super_broker, Delivery, to_super_broker}
use sim_tools.Cluster.Answers.{blank, make_worker-signal}
use sim_tools.Cluster.Startup.{make_broker-IsBroker}
use sim_tools.Floor.Run.{
  Floor, Step, serve, work, carry, report, ask, pass_on, Reach, start, later, Letter,
}
use sim_tools.Floor.View.{Hub, announced, ShowsHub, ShowsBench, waiting, unheard, called, Ledger}
use sim_tools.Floor.Round.{poll_round-Goes}
use sim_tools.Floor.Benches.{IsWorking, letter, done_inj, work_on}
use sim_tools.Floor.Sockets.{take_in}
use sim_tools.Floor.Ledgers.{
  nothing_sent, with_asked, with_passed, with_asked-Grows, with_passed-Grows, are_last,
  IsWorking-still,
}
use sim_tools.Floor.Carrying.{carry_on}
use sim_tools.Floor.Reports.{report_on}

-- A worker that has signalled that it is there.
abbrev signed : Bytes → Letter
signed x =
    letter (record blank { from = x; kind = alive_signal; direction = task_reply })
      (string_to_zmq_msg [])

ShowsBench-new :
    (x : Bytes) (w : Worker)
    → IsName x
    → make_worker x ≡ done w
    → ShowsBench x w (record { jobs = []; answers = signed x ∷ [] })
ShowsBench-new x w ok e =
    let (g, enc, made) = make_worker-signal x ok in
    subst (λ w. ShowsBench x w (record { jobs = []; answers = signed x ∷ [] }))
      (done_inj _ w (sym made ∙ e))
      (record { id_eq = refl; jobs_read = refl; answers_sent = (g, [], refl, enc, refl) })

-- The broker's signal that the cluster is there.
abbrev announcement : Bytes → Delivery
announcement cluster = record {
  target = super_broker;
  envelope = record blank { from_cluster = cluster; kind = alive_signal };
  payload = string_to_zmq_msg [];
}

abbrev first_hub : Bytes → Hub
first_hub cluster = record {
  queue = [];
  back = [];
  front = [];
  cloud = [];
  out = announcement cluster ∷ [];
}

ShowsHub-new :
    (cluster : Bytes) (b : Broker)
    → IsName cluster
    → make_broker cluster ≡ done b
    → ShowsHub cluster b (first_hub cluster)
ShowsHub-new cluster b ok e =
    let (
      b',
      made,
      is_broker,
      (g, enc, logged),
      (name_eq, no_workers, no_back, no_front, no_cloud),
    ) =
      make_broker-IsBroker cluster ok in
    let same : b' ≡ b = done_inj b' b (sym made ∙ e) in
    subst (λ b. ShowsHub cluster b (first_hub cluster)) same
      (record {
        queue_eq = no_workers;
        back_read = no_back;
        front_read = no_front;
        cloud_read = no_cloud;
        sent = rw logged (to_super_broker enc, tt);
        name_eq = name_eq;
        broker_ok = is_broker;
      })

module _ (D : Doubles) (pollin : List Bytes → Bool) (n : ℕ) (cluster : Bytes)
    (name : ℕ → Bytes) where
  -- What a move adds to what has been sent to the cluster.
  abbrev pub noted : Ledger → {s t : Floor} → Step D pollin n cluster name s t → Ledger
  noted g (serve ran same) = g
  noted g (work i below ran same) = g
  noted g (carry sent same) = g
  noted g (report i below sent same) = g
  noted g (ask ls fs read fit same) = with_asked g ls
  noted g (pass_on ls fs read fit same) = with_passed g ls

  -- What has been sent to the cluster on the way to a state.
  unfoldable pub ledger : {s : Floor} → Reach D pollin n cluster name s → Ledger
  ledger (start hub_made made) = nothing_sent
  ledger (later r step) = noted (ledger r) step

module _ (D : Doubles) (pollin : List Bytes → Bool) (n : ℕ) (cluster : Bytes) (name : ℕ → Bytes)
    (sound : (fs : List Bytes) → pollin fs ≡ true → fs ≢ []) (few : n < 2 ^ 32)
    (cluster_ok : IsName cluster) (names : (i : ℕ) → i < n → IsName (name i))
    (distinct : (i j : ℕ) → i < n → j < n → name i ≡ name j → i ≡ j) where
  started :
      (s : Floor)
      → make_broker cluster ≡ done s.broker
      → ((i : ℕ) → i < n → make_worker (name i) ≡ done (s.workers i))
      → IsWorking D nothing_sent n name cluster s
  unfolding waiting unheard called is_alive
  started s hub_made made = record {
    hub = first_hub cluster;
    bench = λ i. record { jobs = []; answers = signed (name i) ∷ [] };
    shows = ShowsHub-new cluster s.broker cluster_ok hub_made;
    works = λ i below. ShowsBench-new (name i) (s.workers i) (names i below) (made i below);
    orderly = record {
      one_turn = λ i below. refl;
      queue_known = tt;
      back_heard = tt;
      out_sound = (announced, tt);
      front_asked = tt;
      cloud_passed = tt;
      jobs_due = λ i below. tt;
      answers_own = λ i below. ((refl, inl refl), tt);
    };
  }

  move :
      {g : Ledger} {s t : Floor}
      → IsWorking D g n name cluster s
      → (step : Step D pollin n cluster name s t)
      → IsWorking D (noted D pollin n cluster name g step) n name cluster t
  move {g = g} {s = s} k (serve {b = b} ran same) =
      let turn =
        poll_round-Goes D g n name cluster k.bench pollin sound s.broker k.hub few k.shows
          k.orderly in
      let after : turn.after ≡ b = done_inj turn.after b (sym turn.returns ∙ ran) in
      rw same (record {
        hub = turn.hub;
        bench = k.bench;
        shows = subst (λ b. ShowsHub cluster b turn.hub) after turn.shows;
        works = k.works;
        orderly = turn.orderly;
      })
  move {g = g} {s = s} k (work i {w = w} below ran same) =
      rw same (work_on D g n name cluster names s i w k below ran).0
  move {g = g} {s = s} k (carry {m = m} {rest = rest} sent same) =
      rw same (carry_on D g n name cluster distinct s m rest k sent).0
  move {g = g} {s = s} k (report i {frames = frames} {rest = rest} below sent same) =
      rw same (report_on D g n name cluster distinct s i frames rest k below sent).0
  move {g = g} {s = s} k (ask ls fs read fit same) = rw same (
      take_in D (with_asked g ls) n name cluster s ls [] fs []
        (IsWorking-still D (with_asked-Grows g ls) cluster n name k) read refl
        (are_last g.asked ls fit) tt)
  move {g = g} {s = s} k (pass_on ls fs read fit same) = rw same (
      take_in D (with_passed g ls) n name cluster s [] ls [] fs
        (IsWorking-still D (with_passed-Grows g ls) cluster n name k) refl read tt
        (are_last g.passed ls fit))

  pub Reach-IsWorking :
      {s : Floor} (r : Reach D pollin n cluster name s)
      → IsWorking D (ledger D pollin n cluster name r) n name cluster s
  unfolding ledger
  Reach-IsWorking {s = s} (start hub_made made) = started s hub_made made
  Reach-IsWorking (later r step) = move (Reach-IsWorking r) step
