-- ===== src/Direct/Async.antt =====
-- Worker and Client of dummy_async_server.cpp. The structures are those of load_balance.cpp, word
-- for word.
use sim_tools.Base.{
  ℕ, zero, suc, Bool, true, false, List, [], ◌∷◌, ◌++◌, Option, none, some, length, drop, replicate,
}
use sim_tools.Base.Bytes.{Bytes}
use sim_tools.Base.Outcome.{Outcome, done, ◌>>=◌, recv}
use sim_tools.Core.Text.{zmq_msg_to_string}
use sim_tools.Core.Doubles.{Doubles}
use sim_tools.Balance.Tasks.{Task, TaskResult, load_task, load_result, encode_task, encode_result}
use sim_tools.Balance.Worker.{sum_task}
use sim_tools.Balance.Client.{gen_task}

-- `old_task` is what the variable that receives a task holds, and the log what is sent.
pub record AsyncWorker : Type 0 where
  pub id : Bytes
  pub old_task : Bytes
  pub input : List Bytes
  pub log : List (List Bytes)

-- `task_result` holds the bytes of the variable into which the poll thread copies every reply.
pub record AsyncClient : Type 0 where
  pub id : Bytes
  pub task_result : Bytes
  pub input : List Bytes
  pub log : List Bytes

-- The constructors; the second argument is what the uninitialised variables hold.
unfoldable pub make_async_client : Bytes → Bytes → AsyncClient
make_async_client id task_result = record {
  id = id;
  task_result = task_result;
  input = [];
  log = [];
}

unfoldable pub make_async_worker : Bytes → Bytes → AsyncWorker
make_async_worker id old_task = record { id = id; old_task = old_task; input = []; log = [] }

module _ (D : Doubles) where
  -- genTask, which is that of load_balance.cpp word for word.
  abbrev pub async_gen_task : (ℕ → ℕ) → Task D.Double
  async_gen_task draw = gen_task D draw

  -- processImp. The frame with the result is made and dropped, and the frame that came is sent.
  unfoldable pub async_process : AsyncWorker → Outcome AsyncWorker
  async_process w = do
    (client_id_msg, rest1) ← recv w.input
    (task_msg, rest2) ← recv rest1
    client_id ← zmq_msg_to_string client_id_msg
    task ← load_task D w.old_task task_msg
    let task_result_msg = encode_result D (sum_task D task)
    done (record w { input = rest2; log = w.log ++ replicate 10 (client_id_msg ∷ task_msg ∷ []) })

  -- sendRequestImp.
  unfoldable pub async_send : (ℕ → ℕ) → AsyncClient → AsyncClient
  async_send draw c = record c { log = c.log ++ encode_task D (gen_task D draw) ∷ [] }

  -- The rounds of sendRequest, with the numbers drawn in each: main's client makes three.
  unfoldable pub async_send_all : List (ℕ → ℕ) → AsyncClient → AsyncClient
  async_send_all [] c = c
  async_send_all (draw ∷ draws) c = async_send_all draws (async_send draw c)

  -- So many rounds of process.
  unfoldable pub async_process_all : ℕ → AsyncWorker → Outcome AsyncWorker
  async_process_all zero w = done w
  async_process_all (suc rounds) w = async_process w >>= λ w'. async_process_all rounds w'

  -- A round of poll in which the socket is readable.
  unfoldable pub take_result : AsyncClient → Outcome (AsyncClient × Option (TaskResult D.Double))
  take_result c = do
    (msg_reply, rest) ← recv c.input
    result ← load_result D c.task_result msg_reply
    let held = msg_reply ++ drop (length msg_reply) c.task_result
    done (record c { task_result = held; input = rest }, some result)

  -- A round of poll, from whether ZMQ_POLLIN is set within the timeout.
  unfoldable pub async_poll :
      Bool → AsyncClient → Outcome (AsyncClient × Option (TaskResult D.Double))
  async_poll false c = done (c, none)
  async_poll true c = take_result c

  -- The rounds of poll until stop_ is set, with the results of the poll.
  unfoldable pub async_poll_all : List Bool → AsyncClient → Outcome AsyncClient
  async_poll_all [] c = done c
  async_poll_all (up ∷ rounds) c = async_poll up c >>= λ r. async_poll_all rounds r.0
