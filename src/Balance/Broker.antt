-- ===== src/Balance/Broker.antt =====
-- BalanceBroker of load_balance.cpp. A socket's input is the sequence of frames that its recv calls
-- return, and what is sent on both sockets is kept in one log, oldest first.
use sim_tools.Base.{
  ℕ, zero, suc, Bool, true, false, List, [], ◌∷◌, ◌++◌, length, leb, if◌then◌else◌,
}
use sim_tools.Base.Bytes.{Bytes, bytes_eq}
use sim_tools.Base.Outcome.{Outcome, done, blocked, fault, thrown, ◌>>=◌, ◌>>◌, in_bounds, recv}
use sim_tools.Core.Text.{string_to_zmq_msg, zmq_msg_to_string}

-- globalConstID_ALIVE, "WORKER_ALIVE".
unfoldable pub worker_alive : Bytes
worker_alive = 87 ∷ 79 ∷ 82 ∷ 75 ∷ 69 ∷ 82 ∷ 95 ∷ 65 ∷ 76 ∷ 73 ∷ 86 ∷ 69 ∷ []

-- sizeof(Task): two uint64_t and 1024 doubles.
abbrev pub sizeof_task : ℕ
sizeof_task = 8208

-- One multipart message, and the socket that it is sent on.
pub data Posted : Type 0 where
  to_client to_worker : List Bytes → Posted

pub record BalanceBroker : Type 0 where
  pub ready : List Bytes  -- workReadyQueue_
  pub back_input : List Bytes
  pub front_input : List Bytes
  pub log : List Posted

abbrev pub post : BalanceBroker → Posted → BalanceBroker
post b p = record b { log = b.log ++ p ∷ [] }

-- A message of a worker, with whether the round ends here: `continue` after an alive signal.
unfoldable pub take_reply : BalanceBroker → Outcome (BalanceBroker × Bool)
take_reply b = do
  (msg_worker_id, rest1) ← recv b.back_input
  (msg_client_id, rest2) ← recv rest1
  worker_id ← zmq_msg_to_string msg_worker_id
  client_id ← zmq_msg_to_string msg_client_id
  let marked = record b { ready = b.ready ++ worker_id ∷ []; back_input = rest2 }
  if bytes_eq client_id worker_alive then done (marked, true) else (do
    (msg_reply, rest3) ← recv rest2
    done (
      post (record marked { back_input = rest3 }) (to_client (msg_client_id ∷ msg_reply ∷ [])),
      false,
    ))

-- The first ready worker gets the task. `front` of an empty queue is a fault.
unfoldable pub hand_over : BalanceBroker → Bytes → Bytes → List Bytes → Outcome BalanceBroker
hand_over b msg_client_id msg_task [] = fault
hand_over b msg_client_id msg_task (worker_id ∷ rest) = done (
    post (record b { ready = rest })
      (to_worker (string_to_zmq_msg worker_id ∷ msg_client_id ∷ msg_task ∷ [])))

-- A task of a client. The broker copies it into a Task, for the log only.
unfoldable pub take_task : BalanceBroker → Outcome BalanceBroker
take_task b = do
  (msg_client_id, rest1) ← recv b.front_input
  (msg_task, rest2) ← recv rest1
  client_id ← zmq_msg_to_string msg_client_id
  in_bounds (leb (length msg_task) sizeof_task)
  hand_over (record b { front_input = rest2 }) msg_client_id msg_task b.ready

unfoldable pub take_task_if : Bool → BalanceBroker → Outcome BalanceBroker
take_task_if true b = take_task b
take_task_if false b = done b

-- What follows a worker's message in the same round.
unfoldable pub after_reply : Bool → BalanceBroker × Bool → Outcome BalanceBroker
after_reply front_up (b, true) = done b
after_reply front_up (b, false) = take_task_if front_up b

-- The front end is polled only when a worker is ready.
unfoldable pub front_polled : List Bytes → Bool → Bool
front_polled [] up = false
front_polled (w ∷ ws) up = up

-- One round of the loop, from the two results of the poll: it returns once one of them is set.
unfoldable pub balance_with : Bool → Bool → BalanceBroker → Outcome BalanceBroker
balance_with true front_up b = take_reply b >>= after_reply front_up
balance_with false true b = take_task b
balance_with false false b = blocked

-- `pollin` stands for zmq::poll: whether it sets ZMQ_POLLIN for a socket with the given input.
module _ (pollin : List Bytes → Bool) where
  unfoldable pub balance_round : BalanceBroker → Outcome BalanceBroker
  balance_round b =
      balance_with (pollin b.back_input) (front_polled b.ready (pollin b.front_input)) b

  -- The loop of serve, up to the poll at which it waits, in at most so many rounds.
  unfoldable pub or_wait :
      BalanceBroker
      → (BalanceBroker → Outcome BalanceBroker)
      → Outcome BalanceBroker
      → Outcome BalanceBroker
  or_wait b next (done b') = next b'
  or_wait b next blocked = done b
  or_wait b next fault = fault
  or_wait b next thrown = thrown

  unfoldable pub balance_serve : ℕ → BalanceBroker → Outcome BalanceBroker
  balance_serve zero b = done b
  balance_serve (suc rounds) b = or_wait b (balance_serve rounds) (balance_round b)
