-- ===== src/Direct/ProxySession.antt =====
-- What the clients of dummy_proxy.cpp show.
use sim_tools.Base.{
  ℕ, ◌+◌, ◌%◌, ◌^◌, ◌≡◌, refl, ◌∙◌, ap, sym, List, [], ◌∷◌, ◌++◌, map, append_assoc, append-nil,
  length, All, update, update_all,
}
use sim_tools.Base.Bytes.{Bytes, bytes_eq_iff}
use sim_tools.Base.Outcome.{done}
use sim_tools.Core.Text.{string_to_zmq_msg}
use sim_tools.Core.Doubles.{Doubles}
use sim_tools.Balance.Tasks.{TaskResult, encode_result}
use sim_tools.Balance.Worker.{sum_task}
use sim_tools.Balance.Client.{BalanceClient, gen_task, send_imp}
use sim_tools.Balance.Trips.{AreDraws}
use sim_tools.Direct.Proxy.{ProxyWorker}
use sim_tools.Direct.ProxyProgram.{
  ProxyHall, Turn, broker_dealer, for_client, make_proxy_client, make_proxy_worker, proxy_hall,
  proxy_round, proxy_rounds, send_request,
}
use sim_tools.Direct.Answers.{proxy_trip}

-- Clients and workers between two rounds.
record IsFree (c : BalanceClient) : Type 0 where
  nothing_in : c.input ≡ []
  nothing_out : c.log ≡ []
  result_size : length c.old_result ≡ 24

record IsIdle (w : ProxyWorker) : Type 0 where
  nothing_in : w.input ≡ []
  nothing_out : w.log ≡ []
  task_size : length w.old_task ≡ 8208

for_client-own :
    (id broker result : Bytes)
    → for_client id (broker ∷ string_to_zmq_msg id ∷ result ∷ []) ≡ result ∷ []
unfolding for_client
for_client-own id broker result =
    rw ((bytes_eq_iff (string_to_zmq_msg id) (string_to_zmq_msg id)).1 refl) refl

module _ (D : Doubles) where
  record IsQuiet (h : ProxyHall D) : Type 0 where
    free : (i : ℕ) → IsFree (h.clients i)
    idle : (i : ℕ) → IsIdle (h.workers i)

  -- The result of a round.
  abbrev pub due : Turn → ℕ × TaskResult D.Double
  due t = (t.client, sum_task D (gen_task D t.draw))

  proxy_round-due :
      (t : Turn) (h : ProxyHall D)
      → AreDraws t.draw
      → IsQuiet h
      → (h' : ProxyHall D) × (proxy_round D t h ≡ done h')
        × IsQuiet h'
        × (h'.shown ≡ h.shown ++ due t ∷ [])
  unfolding proxy_round send_imp
  proxy_round-due t h draws quiet =
      let c = h.clients t.client in
      let w = h.workers t.worker in
      let free = quiet.free t.client in
      let idle = quiet.idle t.worker in
      let (worked, received) =
        proxy_trip D (record c { log = [] }) t.draw (record w { log = [] }) broker_dealer draws
          free.result_size idle.task_size in
      (
        record {
          clients = update h.clients t.client (record c { input = []; log = [] });
          workers =
              update h.workers t.worker
                (record w { input = []; log = []; work_counter = (w.work_counter + 1) % 2 ^ 32 });
          shown = h.shown ++ due t ∷ [];
        },
        rw
            (
              free.nothing_in,
              free.nothing_out,
              idle.nothing_in,
              idle.nothing_out,
              worked,
              for_client-own c.id (string_to_zmq_msg broker_dealer)
                  (encode_result D (sum_task D (gen_task D t.draw))),
              received,
            )
            refl,
        record {
          free =
              update_all (λ i. IsFree) h.clients t.client _
                (record { nothing_in = refl; nothing_out = refl; result_size = free.result_size })
                (λ i _. quiet.free i);
          idle =
              update_all (λ i. IsIdle) h.workers t.worker _
                (record { nothing_in = refl; nothing_out = refl; task_size = idle.task_size })
                (λ i _. quiet.idle i);
        },
        refl,
      )

  proxy_rounds-due :
      (ts : List Turn) (h : ProxyHall D)
      → All (λ t. AreDraws t.draw) ts
      → IsQuiet h
      → (h' : ProxyHall D) × (proxy_rounds D ts h ≡ done h') × (h'.shown ≡ h.shown ++ map due ts)
  unfolding proxy_rounds
  proxy_rounds-due [] h draws quiet = (h, refl, sym (append-nil h.shown))
  proxy_rounds-due (t ∷ ts) h draws quiet =
      let (h1, ran, quiet1, shown1) = proxy_round-due t h draws.0 quiet in
      let (h2, ran2, shown2) = proxy_rounds-due ts h1 draws.1 quiet1 in
      (
        h2,
        rw ran ran2,
        shown2
            ∙ ap (λ (l : List (ℕ × TaskResult D.Double)). l ++ map due ts) shown1
            ∙ append_assoc h.shown (due t ∷ []) (map due ts),
      )

  -- From the clients and workers that main makes, with variables of the right size, any rounds of the
  -- clients' sendRequest return, whichever worker zmq::proxy gives each task to; the clients print,
  -- in the order of the rounds, the number and the sum of the task that each of them has drawn.
  pub proxy_rounds-sums :
      (old_results old_tasks : ℕ → Bytes) (ts : List Turn)
      → ((i : ℕ) → length (old_results i) ≡ 24)
      → ((i : ℕ) → length (old_tasks i) ≡ 8208)
      → All (λ t. AreDraws t.draw) ts
      → (h : ProxyHall D) × (proxy_rounds D ts (proxy_hall D old_results old_tasks) ≡ done h)
        × (h.shown ≡ map due ts)
  unfolding proxy_hall make_proxy_client make_proxy_worker
  proxy_rounds-sums old_results old_tasks ts sizes1 sizes2 draws =
      proxy_rounds-due ts (proxy_hall D old_results old_tasks) draws (record {
        free = λ i. record { nothing_in = refl; nothing_out = refl; result_size = sizes1 i };
        idle = λ i. record { nothing_in = refl; nothing_out = refl; task_size = sizes2 i };
      })

  -- The three rounds of a client that main has made.
  send_request-sums :
      (old_results old_tasks : ℕ → Bytes) (client : ℕ) (pick : ℕ → ℕ) (draw : ℕ → ℕ → ℕ)
      → ((i : ℕ) → length (old_results i) ≡ 24)
      → ((i : ℕ) → length (old_tasks i) ≡ 8208)
      → ((i : ℕ) → AreDraws (draw i))
      → (h : ProxyHall D) × (send_request D client pick draw (proxy_hall D old_results old_tasks)
          ≡ done h)
        × (map (λ (r : ℕ × TaskResult D.Double). r.1) h.shown
            ≡ map (λ (i : ℕ). sum_task D (gen_task D (draw i))) (0 ∷ 1 ∷ 2 ∷ []))
  unfolding send_request
  send_request-sums old_results old_tasks client pick draw sizes1 sizes2 ok =
      let (h, ran, shown) =
        proxy_rounds-sums old_results old_tasks _ sizes1 sizes2 (ok 0, (ok 1, (ok 2, tt))) in
      (h, ran, ap (map (λ (r : ℕ × TaskResult D.Double). r.1)) shown)
