-- ===== src/Tests/Direct.antt =====
-- The workers behind a proxy, and the push-pull tasks, at concrete inputs.
use sim_tools.Base.{◌≡◌, refl, ℕ, true, false, map, List, [], ◌∷◌, length, replicate, arith}
use sim_tools.Base.Bytes.{Bytes}
use sim_tools.Base.Outcome.{done, fault}
use sim_tools.Direct.ProxyProgram.{ProxyHall, Turn, proxy_hall, proxy_rounds}
use sim_tools.Direct.ProxySession.{due, proxy_rounds-sums}
use sim_tools.Direct.Async.{
  make_async_client, make_async_worker, async_send_all, async_process_all, async_poll_all,
}
use sim_tools.Direct.AsyncSession.{with_identity, tenfold, payloads, drawn, async_session}
use sim_tools.PushPull.Tasks.{distribute_tasks, work_rounds, collect_results}
use sim_tools.PushPull.Collected.{range, task_frames, collect_results-total}
use sim_tools.Tests.Data.{plain_doubles}
use mathlib.Core.List.{Permᴰ}

old_task : Bytes
old_task = replicate 8208 5

length-old_task : length old_task ≡ 8208
unfolding old_task
length-old_task = refl

abbrev turn : ℕ → Turn
turn i = record { client = i; worker = 1; draw = λ j. 3 }

proxy_rounds-sums_example :
    (h : ProxyHall plain_doubles) × (proxy_rounds plain_doubles
        (turn 0 ∷ turn 4 ∷ turn 0 ∷ [])
        (proxy_hall plain_doubles (λ i. replicate 24 5) (λ i. old_task))
      ≡ done h)
    × (h.shown ≡ map (due plain_doubles) (turn 0 ∷ turn 4 ∷ turn 0 ∷ []))
proxy_rounds-sums_example =
    proxy_rounds-sums plain_doubles (λ i. replicate 24 5) (λ i. old_task)
      (turn 0 ∷ turn 4 ∷ turn 0 ∷ []) (λ i. refl) (λ i. length-old_task)
      (λ i. omega arith, (λ i. omega arith, (λ i. omega arith, tt)))

async_session_example :
    let client = make_async_client (99 ∷ []) (replicate 24 5) in
    let worker = make_async_worker (65 ∷ []) old_task in
    let draws : List (ℕ → ℕ) = (λ i. 3) ∷ (λ i. 7) ∷ [] in
    let tasks = drawn plain_doubles draws in
    ((async_send_all plain_doubles draws client).log ≡ tasks)
    × (async_process_all plain_doubles 2 (record worker { input = with_identity (99 ∷ []) tasks })
        ≡ done (record worker { log = tenfold (99 ∷ []) tasks }))
    × (async_poll_all plain_doubles
          (false ∷ true ∷ true ∷ [])
          (record client { input = payloads (tenfold (99 ∷ []) tasks) })
        ≡ fault)
async_session_example =
    async_session plain_doubles (99 ∷ []) (65 ∷ []) (replicate 24 5) old_task (λ i. 3)
      ((λ i. 7) ∷ []) 1 (true ∷ []) (λ i. omega arith, (λ i. omega arith, tt)) length-old_task

-- The second task is worked on before the first.
abbrev order : List ℕ
order = 1 ∷ 0 ∷ range 2 98

collect_results-total_example :
    (results : List Bytes) × (distribute_tasks ≡ task_frames (range 0 100))
    × (work_rounds 100 (task_frames order) ≡ done results)
    × (collect_results results ≡ done 2450)
collect_results-total_example = collect_results-total order (Permᴰ.swap refl refl)
