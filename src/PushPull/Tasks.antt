-- ===== src/PushPull/Tasks.antt =====
-- TasksManager, TaskWorker and TaskCollector of tasks_core.cpp.
use sim_tools.Base.{ℕ, zero, suc, ◌+◌, ◌/◌, ◌%◌, ◌^◌, List, [], ◌∷◌, length, leb, take}
use sim_tools.Base.Bytes.{Bytes, le_bytes, from_le}
use sim_tools.Base.Outcome.{Outcome, done, ◌>>=◌, ◌>>◌, in_bounds, recv}

-- GlobalTaskNum.
abbrev pub global_task_num : ℕ
global_task_num = 100

-- The frame of a size_t.
unfoldable pub store_size : ℕ → Bytes
store_size n = le_bytes 8 n

-- memcpy of a size_t out of a frame, which reads past the end of a shorter frame.
unfoldable pub load_size : Bytes → Outcome ℕ
load_size msg = do in_bounds (leb 8 (length msg)); done (from_le (take 8 msg))

-- The frames that distributeTasks sends from number i on, so many.
unfoldable pub distribute : ℕ → ℕ → List Bytes
distribute i zero = []
distribute i (suc n) = store_size i ∷ distribute (i + 1) n

unfoldable pub distribute_tasks : List Bytes
distribute_tasks = distribute 0 global_task_num

-- work, with the frame that it reports and the tasks that are left.
unfoldable pub work : List Bytes → Outcome (Bytes × List Bytes)
work tasks = do
  (msg_task, rest) ← recv tasks
  data_value ← load_size msg_task
  done (store_size (data_value / 2), rest)

-- The loop of tasks_worker.cpp, for so many rounds.
unfoldable pub work_rounds : ℕ → List Bytes → Outcome (List Bytes)
work_rounds zero tasks = done []
work_rounds (suc rounds) tasks = do
  (msg_result, rest) ← work tasks
  results ← work_rounds rounds rest
  done (msg_result ∷ results)

-- The loop of collectResults, with the sum that it logs. The sum is a size_t.
unfoldable pub collect : ℕ → ℕ → List Bytes → Outcome ℕ
collect zero sum results = done sum
collect (suc n) sum results = do
  (msg, rest) ← recv results
  data_value ← load_size msg
  collect n ((sum + data_value) % 2 ^ 64) rest

unfoldable pub collect_results : List Bytes → Outcome ℕ
collect_results results = collect global_task_num 0 results
