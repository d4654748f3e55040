-- ===== src/Direct/Answers.antt =====
-- What clients get from the workers of dummy_proxy.cpp and dummy_async_server.cpp.
use sim_tools.Base.{ℕ, ◌+◌, ◌%◌, ◌^◌, ◌≡◌, refl, [], ◌∷◌, ◌++◌, length}
use sim_tools.Base.Bytes.{Bytes}
use sim_tools.Base.Outcome.{done}
use sim_tools.Core.Text.{string_to_zmq_msg}
use sim_tools.Core.Names.{zmq_msg-roundtrip}
use sim_tools.Core.Doubles.{Doubles}
use sim_tools.Balance.Tasks.{
  encode_task, encode_result, load_task-encode_task, load_result-encode_result,
}
use sim_tools.Balance.Worker.{sum_task}
use sim_tools.Balance.Client.{BalanceClient, receive_imp, gen_task}
use sim_tools.Balance.Trips.{AreDraws, gen_task-ok, sum_task_tag}
use sim_tools.Direct.Proxy.{ProxyWorker, proxy_process, proxy_receive}

module _ (D : Doubles) where
  -- Behind the proxy, a worker answers a client's task over the same proxy to the same client, which
  -- reads its task's number and the sum of what it has drawn.
  pub proxy_trip :
      (c : BalanceClient) (draw : ℕ → ℕ) (w : ProxyWorker) (broker : Bytes)
      → AreDraws draw
      → length c.old_result ≡ 24
      → length w.old_task ≡ 8208
      → let task = gen_task D draw in
        let result = encode_result D (sum_task D task) in
        (proxy_process D (record w {
          input = string_to_zmq_msg broker ∷ string_to_zmq_msg c.id ∷ encode_task D task ∷ [];
        })
          ≡ done (record w {
            input = [];
            log = w.log ++ (string_to_zmq_msg broker ∷ string_to_zmq_msg c.id ∷ result ∷ []) ∷ [];
            work_counter = (w.work_counter + 1) % 2 ^ 32;
          }))
        × (proxy_receive D (record c { input = result ∷ [] })
            ≡ done (record c { input = [] }, sum_task D task))
  unfolding proxy_process receive_imp
  proxy_trip c draw w broker draws l1 l2 =
      let (tag, size) = gen_task-ok D draw draws in
      let task = gen_task D draw in
      (
        rw
            (
              zmq_msg-roundtrip broker,
              zmq_msg-roundtrip c.id,
              load_task-encode_task D w.old_task task l2 tag size,
            )
            refl,
        rw (load_result-encode_result D c.old_result (sum_task D task) l1 (sum_task_tag D task tag))
            refl,
      )
