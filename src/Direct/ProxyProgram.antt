-- ===== src/Direct/ProxyProgram.antt =====
-- The programs of dummy_proxy.cpp: main's clients and workers, and the rounds of their threads. Of
-- zmq::proxy it is assumed that it gives a client's message to one of the workers, and a worker's
-- message to the client that it names; which worker, is given with each round.
use sim_tools.Base.{ℕ, List, [], ◌∷◌, ◌++◌, update, if◌then◌else◌}
use sim_tools.Base.Bytes.{Bytes, bytes_eq}
use sim_tools.Base.Outcome.{Outcome, done, ◌>>=◌, recv}
use sim_tools.Core.Text.{string_to_zmq_msg}
use sim_tools.Core.Doubles.{Doubles}
use sim_tools.Cluster.Config.{to_string}
use sim_tools.Balance.Tasks.{Task, TaskResult}
use sim_tools.Balance.Client.{BalanceClient, gen_task}
use sim_tools.Direct.Proxy.{ProxyWorker, proxy_process, proxy_send, proxy_receive}

-- "stub_" and "worker_" with the number.
unfoldable pub stub_name : ℕ → Bytes
stub_name i = 115 ∷ 116 ∷ 117 ∷ 98 ∷ 95 ∷ to_string i

unfoldable pub proxy_worker_name : ℕ → Bytes
proxy_worker_name i = 119 ∷ 111 ∷ 114 ∷ 107 ∷ 101 ∷ 114 ∷ 95 ∷ to_string i

-- "BrokerDealer", the identity of the proxy's back end, which it sets with its NUL.
unfoldable pub broker_dealer : Bytes
broker_dealer = 66 ∷ 114 ∷ 111 ∷ 107 ∷ 101 ∷ 114 ∷ 68 ∷ 101 ∷ 97 ∷ 108 ∷ 101 ∷ 114 ∷ []

-- The constructors; the second argument is what the uninitialised variables hold.
unfoldable pub make_proxy_client : Bytes → Bytes → BalanceClient
make_proxy_client id old_result = record { id = id; old_result = old_result; input = []; log = [] }

unfoldable pub make_proxy_worker : Bytes → Bytes → ProxyWorker
make_proxy_worker id old_task = record {
  id = id;
  old_task = old_task;
  work_counter = 0;
  input = [];
  log = [];
}

-- `shown` is what the clients print: a client's number, and the result that it has got.
pub record ProxyHall (D : Doubles) : Type 0 where
  pub clients : ℕ → BalanceClient
  pub workers : ℕ → ProxyWorker
  pub shown : List (ℕ × TaskResult D.Double)

-- A round of a client's sendRequest: the client, the worker that gets its task, and the numbers
-- drawn.
pub record Turn : Type 0 where
  pub client : ℕ
  pub worker : ℕ
  pub draw : ℕ → ℕ

-- What the front end's router gives to a client of a message on the back end.
unfoldable pub for_client : Bytes → List Bytes → List Bytes
for_client id (broker ∷ client ∷ rest) = if bytes_eq client (string_to_zmq_msg id) then rest else []
for_client id _ = []

module _ (D : Doubles) where
  -- genTask, which is that of load_balance.cpp word for word.
  abbrev pub proxy_gen_task : (ℕ → ℕ) → Task D.Double
  proxy_gen_task draw = gen_task D draw

  unfoldable pub proxy_hall : (ℕ → Bytes) → (ℕ → Bytes) → ProxyHall D
  proxy_hall old_results old_tasks = record {
    clients = λ i. make_proxy_client (stub_name i) (old_results i);
    workers = λ i. make_proxy_worker (proxy_worker_name i) (old_tasks i);
    shown = [];
  }

  -- The client sends, a worker processes, and the client receives.
  unfoldable pub proxy_round : Turn → ProxyHall D → Outcome (ProxyHall D)
  proxy_round t h = do
    let c = proxy_send D t.draw (h.clients t.client)
    (task_msg, unsent) ← recv c.log
    let w = h.workers t.worker
    w1 ← proxy_process D (record w {
      input = w.input ++ string_to_zmq_msg broker_dealer ∷ string_to_zmq_msg c.id ∷ task_msg ∷ [];
    })
    (answer, unsaid) ← recv w1.log
    (c1, result) ←
        proxy_receive D (record c { log = unsent; input = c.input ++ for_client c.id answer })
    done (record {
      clients = update h.clients t.client c1;
      workers = update h.workers t.worker (record w1 { log = unsaid });
      shown = h.shown ++ (t.client, result) ∷ [];
    })

  -- The rounds of all clients, in the order in which they come.
  unfoldable pub proxy_rounds : List Turn → ProxyHall D → Outcome (ProxyHall D)
  proxy_rounds [] h = done h
  proxy_rounds (t ∷ ts) h = proxy_round t h >>= λ h'. proxy_rounds ts h'

  -- The three rounds of one client's sendRequest.
  unfoldable pub send_request : ℕ → (ℕ → ℕ) → (ℕ → ℕ → ℕ) → ProxyHall D → Outcome (ProxyHall D)
  send_request client pick draw h =
      proxy_rounds
        (record { client = client; worker = pick 0; draw = draw 0 }
          ∷ record { client = client; worker = pick 1; draw = draw 1 }
          ∷ record { client = client; worker = pick 2; draw = draw 2 }
          ∷ [])
        h
