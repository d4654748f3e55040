-- ===== src/Balance/Hall/View.antt =====
-- The states of main that the flight of its messages shows.
use sim_tools.Base.{ℕ, ◌<◌, ◌≤◌, ◌≡◌, List, ◌++◌, map, length, All}
use sim_tools.Core.Doubles.{Doubles}
use sim_tools.Cluster.Config.{worker_name}
use sim_tools.Balance.Tasks.{TaskResult}
use sim_tools.Balance.Worker.{BalanceWorker, sum_task}
use sim_tools.Balance.Client.{gen_task}
use sim_tools.Balance.Trips.{AreDraws}
use sim_tools.Balance.Dispatching.{State, broker_at}
use sim_tools.Balance.Hall.{customer_name, Customer, Hall}
use sim_tools.Balance.Hall.Flight.{
  Place, dealt, job, said, heard, Item, parcel, alive, spent, collect, word_of, wish_of, act_of,
  jobs_of, said_of, sent_of, got_of, due_of,
}

module _ (D : Doubles) where
  -- The result of a task with the numbers drawn.
  abbrev pub result_of : (ℕ → ℕ) → TaskResult D.Double
  result_of d = sum_task D (gen_task D d)

  abbrev pub state_of : List Item → List ℕ → State
  state_of f ready = record {
    queue = map worker_name ready;
    words = collect (word_of D) f;
    wishes = collect (wish_of D) f;
    acts = collect (act_of D) f;
  }

  pub record ShowsWorker (f : List Item) (j : ℕ) (w : BalanceWorker) : Type 0 where
    pub id_eq : w.id ≡ worker_name j
    pub task_size : length w.old_task ≡ 8208
    pub reads : w.input ≡ collect (jobs_of D j) f
    pub says : w.log ≡ collect (said_of D j) f

  -- A client has got the results of all its tasks but the one that is on its way.
  pub record ShowsCustomer (f : List Item) (i : ℕ) (c : Customer D) : Type 0 where
    pub id_eq : c.client.id ≡ customer_name i
    pub result_size : length c.client.old_result ≡ 24
    pub sends : c.client.log ≡ collect (sent_of D i) f
    pub gets : c.client.input ≡ collect (got_of D i) f
    pub finished : List (ℕ → ℕ)
    pub one_due : length (collect (due_of i) f) ≤ 1
    pub asked_eq : c.asked ≡ collect (due_of i) f ++ finished
    pub results_eq : c.results ≡ map result_of finished

module _ (n m : ℕ) where
  abbrev pub IsPlace : Place → Type 0
  IsPlace (dealt j) = j < n
  IsPlace (job j) = j < n
  IsPlace (said j) = j < n
  IsPlace (heard j) = j < n
  IsPlace _ = Unit {0}

  abbrev pub IsItem : Item → Type 0
  IsItem (parcel i d p) = (i < m) × AreDraws d × IsPlace p
  IsItem (alive j arrived) = j < n
  IsItem spent = Unit {0}

  -- The messages that fly, and the ready workers.
  pub record Flies (D : Doubles) (flight : List Item) (ready : List ℕ) (s : Hall D) : Type 0 where
    pub broker_eq : s.broker ≡ broker_at (state_of D flight ready)
    pub works : (j : ℕ) → j < n → ShowsWorker D flight j (s.workers j)
    pub serves : (i : ℕ) → i < m → ShowsCustomer D flight i (s.customers i)
    pub items_ok : All IsItem flight
    pub ready_ok : All (λ j. j < n) ready

  pub record IsRunning (D : Doubles) (s : Hall D) : Type 0 where
    pub flight : List Item
    pub ready : List ℕ
    pub flies : Flies D flight ready s
