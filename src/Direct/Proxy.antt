-- ===== src/Direct/Proxy.antt =====
-- Worker of dummy_proxy.cpp. The structures and the client are those of load_balance.cpp, word for
-- word. The worker's router socket puts the identity of the proxy in front of a message.
use sim_tools.Base.{ℕ, ◌+◌, ◌%◌, ◌^◌, List, [], ◌∷◌, ◌++◌}
use sim_tools.Base.Bytes.{Bytes}
use sim_tools.Base.Outcome.{Outcome, done, ◌>>=◌, recv}
use sim_tools.Core.Text.{zmq_msg_to_string}
use sim_tools.Core.Doubles.{Doubles}
use sim_tools.Balance.Tasks.{TaskResult, load_task, encode_result}
use sim_tools.Balance.Worker.{sum_task}
use sim_tools.Balance.Client.{BalanceClient, send_imp, receive_imp}

-- `old_task` is what the variable that receives a task holds, and the log what is sent.
pub record ProxyWorker : Type 0 where
  pub id : Bytes
  pub old_task : Bytes
  pub work_counter : ℕ  -- std::atomic<uint32_t>
  pub input : List Bytes
  pub log : List (List Bytes)

module _ (D : Doubles) where
  unfoldable pub proxy_process : ProxyWorker → Outcome ProxyWorker
  proxy_process w = do
    (broker_id_msg, rest1) ← recv w.input
    (client_id_msg, rest2) ← recv rest1
    (task_msg, rest3) ← recv rest2
    broker_id ← zmq_msg_to_string broker_id_msg
    client_id ← zmq_msg_to_string client_id_msg
    task ← load_task D w.old_task task_msg
    done (record w {
      input = rest3;
      log = w.log ++ (broker_id_msg ∷ client_id_msg ∷ encode_result D (sum_task D task) ∷ []) ∷ [];
      work_counter = (w.work_counter + 1) % 2 ^ 32;
    })

  -- sendRequestImp of dummy_proxy.cpp up to the send, and from the receive on.
  abbrev pub proxy_send : (ℕ → ℕ) → BalanceClient → BalanceClient
  proxy_send draw c = send_imp D draw c

  abbrev pub proxy_receive : BalanceClient → Outcome (BalanceClient × TaskResult D.Double)
  proxy_receive c = receive_imp D c
