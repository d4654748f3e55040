-- ===== src/Balance/Hall.antt =====
-- main of load_balance.cpp: the broker, the clients and the workers, each in its own thread, and the
-- messages that are on their way between them. A step is a round of a thread's loop, or a message
-- that a socket carries; what a router sends goes to the one with the identity in its first frame.
use sim_tools.Base.{ℕ, suc, ◌<◌, ◌≡◌, Bool, List, [], ◌∷◌, ◌++◌, if◌then◌else◌, length, update}
use sim_tools.Base.Bytes.{Bytes, bytes_eq}
use sim_tools.Base.Outcome.{done}
use sim_tools.Core.Text.{string_to_zmq_msg}
use sim_tools.Core.Doubles.{Doubles}
use sim_tools.Cluster.Config.{to_string, worker_name}
use sim_tools.Balance.Broker.{BalanceBroker, Posted, to_client, to_worker, balance_round}
use sim_tools.Balance.Tasks.{TaskResult}
use sim_tools.Balance.Worker.{BalanceWorker, make_balance_worker, process_imp}
use sim_tools.Balance.Client.{BalanceClient, send_imp, receive_imp}
use sim_tools.Balance.Trips.{AreDraws}
pub mod Flight
pub mod View
pub mod Cases
pub mod Landing
pub mod Rounds
pub mod Names
pub mod Carried
pub mod Workers
pub mod Customers
pub mod Results
pub mod Returns

-- "stub_" with the number.
unfoldable pub customer_name : ℕ → Bytes
customer_name i = 115 ∷ 116 ∷ 117 ∷ 98 ∷ 95 ∷ to_string i

-- A client in its sendRequest: the numbers drawn in its rounds so far, and the results that it has
-- printed, both newest first. It waits for a result if one is missing.
pub record Customer (D : Doubles) : Type 0 where
  pub client : BalanceClient
  pub asked : List (ℕ → ℕ)
  pub results : List (TaskResult D.Double)

pub record Hall (D : Doubles) : Type 0 where
  pub broker : BalanceBroker
  pub workers : ℕ → BalanceWorker
  pub customers : ℕ → Customer D

unfoldable pub new_balance_broker : BalanceBroker
new_balance_broker = record { ready = []; back_input = []; front_input = []; log = [] }

unfoldable pub make_balance_client : Bytes → Bytes → BalanceClient
make_balance_client id old_result = record {
  id = id;
  old_result = old_result;
  input = [];
  log = [];
}

-- What main makes; the arguments are what the uninitialised variables hold.
unfoldable pub opened : (D : Doubles) → (ℕ → Bytes) → (ℕ → Bytes) → Hall D
opened D old_tasks old_results = record {
  broker = new_balance_broker;
  workers = λ j. make_balance_worker (worker_name j) (old_tasks j);
  customers = λ i. record {
    client = make_balance_client (customer_name i) (old_results i);
    asked = [];
    results = [];
  };
}

-- The front end's router and the back end's.
abbrev pub give_client : Posted → BalanceClient → BalanceClient
give_client (to_worker frames) c = c
give_client (to_client []) c = c
give_client (to_client (to ∷ frames)) c = record c {
  input = if bytes_eq (string_to_zmq_msg c.id) to then c.input ++ frames else c.input;
}

abbrev pub give_worker : Posted → BalanceWorker → BalanceWorker
give_worker (to_client frames) w = w
give_worker (to_worker []) w = w
give_worker (to_worker (to ∷ frames)) w = record w {
  input = if bytes_eq (string_to_zmq_msg w.id) to then w.input ++ frames else w.input;
}

module _ (D : Doubles) (pollin : List Bytes → Bool) (n m : ℕ) where
  pub data Step (s t : Hall D) : Type 0 where
    serve :
        {b : BalanceBroker}
        → balance_round pollin s.broker ≡ done b
        → t ≡ record s { broker = b }
        → Step s t
    carry :
        {p : Posted} {rest : List Posted}
        → s.broker.log ≡ p ∷ rest
        → t ≡ record {
          broker = record s.broker { log = rest };
          workers = λ j. give_worker p (s.workers j);
          customers = λ i. record (s.customers i) { client = give_client p (s.customers i).client };
        }
        → Step s t
    work :
        (j : ℕ) {w : BalanceWorker}
        → j < n
        → process_imp D (s.workers j) ≡ done w
        → t ≡ record s { workers = update s.workers j w }
        → Step s t
    report :
        (j : ℕ) {frames : List Bytes} {rest : List (List Bytes)}
        → j < n
        → (s.workers j).log ≡ frames ∷ rest
        → t ≡ record s {
          broker = record s.broker {
            back_input = s.broker.back_input ++ string_to_zmq_msg (s.workers j).id ∷ frames;
          };
          workers = update s.workers j (record (s.workers j) { log = rest });
        }
        → Step s t
    ask :
        (i : ℕ) (draw : ℕ → ℕ)
        → i < m
        → length (s.customers i).asked ≡ length (s.customers i).results
        → length (s.customers i).asked < 3
        → AreDraws draw
        → t ≡ record s {
          customers = update s.customers i (record (s.customers i) {
            client = send_imp D draw (s.customers i).client;
            asked = draw ∷ (s.customers i).asked;
          });
        }
        → Step s t
    submit :
        (i : ℕ) {frame : Bytes} {rest : List Bytes}
        → i < m
        → (s.customers i).client.log ≡ frame ∷ rest
        → t ≡ record s {
          broker = record s.broker {
            front_input =
                s.broker.front_input ++ string_to_zmq_msg (s.customers i).client.id ∷ frame ∷ [];
          };
          customers =
              update s.customers i (record (s.customers i) {
                client = record ((s.customers i).client) { log = rest };
              });
        }
        → Step s t
    take_in :
        (i : ℕ) {c : BalanceClient} {r : TaskResult D.Double}
        → i < m
        → length (s.customers i).asked ≡ suc (length (s.customers i).results)
        → receive_imp D (s.customers i).client ≡ done (c, r)
        → t ≡ record s {
          customers =
              update s.customers i
                (record (s.customers i) { client = c; results = r ∷ (s.customers i).results });
        }
        → Step s t

  pub data Reach : Hall D → Type 0 where
    start :
        (old_tasks old_results : ℕ → Bytes)
        → ((j : ℕ) → length (old_tasks j) ≡ 8208)
        → ((i : ℕ) → length (old_results i) ≡ 24)
        → Reach (opened D old_tasks old_results)
    later : {s t : Hall D} → Reach s → Step s t → Reach t
