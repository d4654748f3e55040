-- ===== src/Cluster/Client.antt =====
-- Client of cluster_broker.cpp: it sends a random task and waits for the answer.
use sim_tools.Base.{ℕ, zero, suc, Bool, true, false, List, [], ◌∷◌, ◌++◌, if◌then◌else◌}
use sim_tools.Base.Bytes.{Bytes}
use sim_tools.Base.Outcome.{Outcome, done, ◌>>=◌, recv}
use sim_tools.Core.Types.{TaskDirection, default_meta, normal_task, task_submit, task_reply}
use sim_tools.Core.Wire.{load_meta, encode_meta}
use sim_tools.Core.Address.{put_from_id}
use sim_tools.Core.Doubles.{Doubles, bytes_of, load_reply, request_size}

pub record Client : Type 0 where
  pub id : Bytes
  pub input : List Bytes
  pub log : List (List Bytes)

-- What sendRequest reports of the answer, with the number of the task that it received.
pub data Receipt (Double : Type 0) : Type 0 where
  answered : ℕ → Double → Receipt Double
  rejected : ℕ → Receipt Double

unfoldable pub is_reply : TaskDirection → Bool
is_reply task_reply = true
is_reply _ = false

module _ (D : Doubles) where
  -- The array that genTask fills, from the numbers drawn for its elements.
  unfoldable pub gen_array : ℕ → (ℕ → ℕ) → List D.Double
  gen_array zero draw = []
  gen_array (suc n) draw = D.per_mille (draw zero) ∷ gen_array n (λ i. draw (suc i))

  -- sendRequest up to the sends: `draw` and `task_id` are the random numbers of genTask.
  unfoldable pub send_task : (ℕ → ℕ) → ℕ → Client → Outcome Client
  send_task draw task_id c = do
    meta ← put_from_id (record default_meta { task_id = task_id }) c.id
    let request = record meta { task_direction = task_submit; task_type = normal_task }
    done (record c {
      log = c.log ++ (encode_meta request ∷ bytes_of D (gen_array request_size draw) ∷ []) ∷ [];
    })

  -- sendRequest from the receives on.
  unfoldable pub receive_result : Client → Outcome (Client × Receipt D.Double)
  receive_result c = do
    (meta_msg, rest1) ← recv c.input
    (result_msg, rest2) ← recv rest1
    meta ← load_meta meta_msg
    receipt ←
        (if is_reply meta.task_direction
          then (load_reply D result_msg >>= λ sum. done (answered meta.task_id sum))
          else done (rejected meta.task_id))
    done (record c { input = rest2 }, receipt)

  unfoldable pub send_request : (ℕ → ℕ) → ℕ → Client → Outcome (Client × Receipt D.Double)
  send_request draw task_id c = do c' ← send_task draw task_id c; receive_result c'
