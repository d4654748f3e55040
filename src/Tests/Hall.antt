-- ===== src/Tests/Hall.antt =====
-- main of load_balance.cpp at concrete inputs: one client and one worker, up to the first result.
use sim_tools.Base.{
  ℕ, ◌+◌, ◌-◌, ◌≤◌, ◌≡◌, refl, Bool, true, false, List, [], ◌∷◌, ◌++◌, length, map, drop, replicate,
  arith, update,
}
use sim_tools.Base.Bytes.{Bytes, bytes_eq, le_bytes, from_le}
use sim_tools.Base.Outcome.{Outcome, done, blocked, fault, thrown}
use sim_tools.Core.Text.{string_to_zmq_msg, zmq_msg_to_string}
use sim_tools.Core.Doubles.{doubles_of, bytes_of, sum_from}
use sim_tools.Cluster.Config.{worker_name, decimal}
use sim_tools.Balance.Broker.{
  Posted, worker_alive, balance_round, balance_with, front_polled, take_reply, after_reply,
  take_task, take_task_if, hand_over,
}
use sim_tools.Balance.Tasks.{
  encode_tag, decode_tag, encode_task, encode_result, load_task, load_result, TaskResult,
}
use sim_tools.Balance.Worker.{make_balance_worker, process_imp, sum_task}
use sim_tools.Balance.Client.{BalanceClient, gen_elements, gen_task, send_imp, receive_imp}
use sim_tools.Balance.Hall.{
  Hall, Reach, start, later, serve, carry, work, report, ask, submit, take_in, opened,
  new_balance_broker, make_balance_client, customer_name, give_client, give_worker,
}
use sim_tools.Balance.Hall.View.{result_of}
use sim_tools.Base.{◌<◌}
use sim_tools.Balance.Hall.Returns.{WaitsOrReturns, rounds_return}
use sim_tools.Balance.Hall.Results.{results_exact}
use sim_tools.Tests.Data.{plain_doubles}

abbrev readable : List Bytes → Bool
readable [] = false
readable (f ∷ fs) = true

abbrev outcome_or {ℓ} : {A : Type ℓ} → A → Outcome A → A
outcome_or a (done x) = x
outcome_or a blocked = a
outcome_or a fault = a
outcome_or a thrown = a

abbrev Runs : Hall plain_doubles → Type 0
Runs s = Reach plain_doubles readable 1 1 s

threes : ℕ → ℕ
threes i = 3

abbrev hall_0 : Hall plain_doubles
hall_0 = opened plain_doubles (λ j. replicate 8208 5) (λ i. replicate 24 5)

hall_0-Runs : Runs hall_0
hall_0-Runs = start (λ j. replicate 8208 5) (λ i. replicate 24 5) (λ j. refl) (λ i. refl)

abbrev served : Hall plain_doubles → Hall plain_doubles
served s = record s { broker = outcome_or s.broker (balance_round readable s.broker) }

abbrev carried : Hall plain_doubles → Hall plain_doubles
carried s = by_log s.broker.log
  where
    by_log : List Posted → Hall plain_doubles
    by_log [] = s
    by_log (p ∷ rest) = record {
      broker = record s.broker { log = rest };
      workers = λ j. give_worker p (s.workers j);
      customers = λ i. record (s.customers i) { client = give_client p (s.customers i).client };
    }

abbrev reported : Hall plain_doubles → Hall plain_doubles
reported s = by_log (s.workers 0).log
  where
    by_log : List (List Bytes) → Hall plain_doubles
    by_log [] = s
    by_log (frames ∷ rest) = record s {
      broker = record s.broker {
        back_input = s.broker.back_input ++ string_to_zmq_msg (s.workers 0).id ∷ frames;
      };
      workers = update s.workers 0 (record (s.workers 0) { log = rest });
    }

abbrev asked : Hall plain_doubles → Hall plain_doubles
asked s = record s {
  customers = update s.customers 0 (record (s.customers 0) {
    client = send_imp plain_doubles threes (s.customers 0).client;
    asked = threes ∷ (s.customers 0).asked;
  });
}

abbrev submitted : Hall plain_doubles → Hall plain_doubles
submitted s = by_log (s.customers 0).client.log
  where
    by_log : List Bytes → Hall plain_doubles
    by_log [] = s
    by_log (frame ∷ rest) = record s {
      broker = record s.broker {
        front_input =
            s.broker.front_input ++ string_to_zmq_msg (s.customers 0).client.id ∷ frame ∷ [];
      };
      customers =
          update s.customers 0
            (record (s.customers 0) { client = record ((s.customers 0).client) { log = rest } });
    }

abbrev worked : Hall plain_doubles → Hall plain_doubles
worked s = record s {
  workers = update s.workers 0 (outcome_or (s.workers 0) (process_imp plain_doubles (s.workers 0)));
}

abbrev taken_in : Hall plain_doubles → Hall plain_doubles
taken_in s = by_result (receive_imp plain_doubles (s.customers 0).client)
  where
    by_result : Outcome (BalanceClient × TaskResult plain_doubles.Double) → Hall plain_doubles
    by_result (done (c, r)) = record s {
      customers =
          update s.customers 0
            (record (s.customers 0) { client = c; results = r ∷ (s.customers 0).results });
    }
    by_result _ = s

-- The worker signals, the client asks, and its task reaches the worker.
busy_hall : Hall plain_doubles
busy_hall = carried (served (submitted (asked (served (reported hall_0)))))

busy_hall-Runs : Runs busy_hall
unfolding busy_hall opened new_balance_broker make_balance_worker make_balance_client balance_round
    balance_with front_polled take_reply after_reply take_task take_task_if hand_over send_imp
    worker_alive string_to_zmq_msg zmq_msg_to_string bytes_eq worker_name customer_name decimal
    encode_task gen_task gen_elements encode_tag le_bytes bytes_of threes
busy_hall-Runs =
    later
      (later
        (later
          (later (later (later hall_0-Runs (report 0 (omega arith) refl refl)) (serve refl refl))
            (ask 0 threes (omega arith) refl (omega arith) (λ i. omega arith) refl))
          (submit 0 (omega arith) refl refl))
        (serve refl refl))
      (carry refl refl)

-- The worker has answered, and the client has printed its first result.
first_hall : Hall plain_doubles
first_hall = taken_in (carried (served (reported (worked busy_hall))))

first_hall-Runs : Runs first_hall
unfolding first_hall busy_hall opened new_balance_broker make_balance_worker make_balance_client
    balance_round balance_with front_polled take_reply after_reply take_task take_task_if hand_over
    send_imp worker_alive string_to_zmq_msg zmq_msg_to_string bytes_eq worker_name customer_name
    decimal encode_task gen_task gen_elements encode_tag le_bytes bytes_of threes process_imp
    load_task decode_tag from_le doubles_of sum_task sum_from encode_result receive_imp load_result
first_hall-Runs =
    later
      (later
        (later
          (later (later busy_hall-Runs (work 0 (omega arith) refl refl))
            (report 0 (omega arith) refl refl))
          (serve refl refl))
        (carry refl refl))
      (take_in 0 (omega arith) refl refl refl)

results_exact_example :
    let c = first_hall.customers 0 in
    (length c.asked ≤ length c.results + 1)
    × (c.results ≡ map (result_of plain_doubles) (drop (length c.asked - length c.results) c.asked))
results_exact_example =
    results_exact plain_doubles readable 1 1 (λ f fs. refl) refl (omega arith) (omega arith)
      first_hall-Runs 0 (omega arith)

one_result : length (first_hall.customers 0).results ≡ 1
unfolding first_hall busy_hall opened new_balance_broker make_balance_worker make_balance_client
    balance_round balance_with front_polled take_reply after_reply take_task take_task_if hand_over
    send_imp worker_alive string_to_zmq_msg zmq_msg_to_string bytes_eq worker_name customer_name
    decimal encode_task gen_task gen_elements encode_tag le_bytes bytes_of threes process_imp
    load_task decode_tag from_le doubles_of sum_task sum_from encode_result receive_imp load_result
one_result = refl

rounds_return_example :
    WaitsOrReturns (balance_round readable busy_hall.broker)
    × ((j : ℕ) → j < 1 → WaitsOrReturns (process_imp plain_doubles (busy_hall.workers j)))
    × ((i : ℕ) → i < 1 → WaitsOrReturns (receive_imp plain_doubles (busy_hall.customers i).client))
rounds_return_example =
    rounds_return plain_doubles readable 1 1 (λ f fs. refl) refl (omega arith) (omega arith)
      busy_hall-Runs
