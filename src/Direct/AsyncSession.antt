-- ===== src/Direct/AsyncSession.antt =====
-- What becomes of the requests in dummy_async_server.cpp. Of zmq::proxy it is assumed that it passes
-- the client's messages to the worker in order, with the client's identity in front.
use sim_tools.Base.{
  ℕ, zero, suc, ◌≡◌, refl, ◌∙◌, ap, true, false, Bool, List, [], ◌∷◌, ◌++◌, map, append_assoc,
  append-nil, length, All, replicate,
}
use sim_tools.Base.Bytes.{Bytes}
use sim_tools.Base.Outcome.{done, fault}
use sim_tools.Core.Text.{string_to_zmq_msg}
use sim_tools.Core.Names.{zmq_msg-roundtrip}
use sim_tools.Core.Doubles.{Doubles}
use sim_tools.Balance.Tasks.{encode_task, load_result, length-encode_task, load_task-encode_task}
use sim_tools.Balance.Client.{gen_task}
use sim_tools.Balance.Trips.{AreDraws, gen_task-ok}
use sim_tools.Direct.Async.{
  AsyncWorker, AsyncClient, make_async_client, make_async_worker, async_send, async_send_all,
  async_process, async_process_all, async_poll, async_poll_all, take_result,
}

-- The frames that the proxy gives to the worker, for the client's messages.
abbrev pub with_identity : Bytes → List Bytes → List Bytes
with_identity id [] = []
with_identity id (m ∷ ms) = string_to_zmq_msg id ∷ m ∷ with_identity id ms

-- Ten times each.
abbrev pub tenfold : Bytes → List Bytes → List (List Bytes)
tenfold id [] = []
tenfold id (m ∷ ms) = replicate 10 (string_to_zmq_msg id ∷ m ∷ []) ++ tenfold id ms

-- What the proxy gives to the client: the messages without the identity.
abbrev pub payloads : List (List Bytes) → List Bytes
payloads [] = []
payloads ([] ∷ ms) = payloads ms
payloads ((id ∷ rest) ∷ ms) = rest ++ payloads ms

module _ (D : Doubles) where
  abbrev pub drawn : List (ℕ → ℕ) → List Bytes
  drawn draws = map (λ d. encode_task D (gen_task D d)) draws

  async_send_all-drawn :
      (draws : List (ℕ → ℕ)) (c : AsyncClient)
      → async_send_all D draws c ≡ record c { log = c.log ++ drawn draws }
  unfolding async_send_all async_send
  async_send_all-drawn [] c = rw (append-nil c.log) refl
  async_send_all-drawn (d ∷ ds) c =
      async_send_all-drawn ds (async_send D d c)
      ∙ ap (λ (l : List Bytes). record c { log = l })
          (append_assoc c.log (encode_task D (gen_task D d) ∷ []) (drawn ds))

  -- A round of the worker.
  async_process-replicate :
      (w : AsyncWorker) (id : Bytes) (draw : ℕ → ℕ) (rest : List Bytes)
      → AreDraws draw
      → length w.old_task ≡ 8208
      → w.input ≡ string_to_zmq_msg id ∷ encode_task D (gen_task D draw) ∷ rest
      → async_process D w
        ≡ done (record w {
          input = rest;
          log = w.log ++ replicate 10 (string_to_zmq_msg id ∷ encode_task D (gen_task D draw) ∷ []);
        })
  unfolding async_process
  async_process-replicate w id draw rest ok l read =
      let (tag, size) = gen_task-ok D draw ok in
      rw
        (
          read,
          zmq_msg-roundtrip id,
          load_task-encode_task D w.old_task (gen_task D draw) l tag size,
        )
        refl

  async_process_all-tenfold :
      (draws : List (ℕ → ℕ)) (id : Bytes) (w : AsyncWorker)
      → All AreDraws draws
      → length w.old_task ≡ 8208
      → w.input ≡ with_identity id (drawn draws)
      → async_process_all D (length draws) w
        ≡ done (record w { input = []; log = w.log ++ tenfold id (drawn draws) })
  unfolding async_process_all
  async_process_all-tenfold [] id w ok size read = rw (append-nil w.log, ← read) refl
  async_process_all-tenfold (d ∷ ds) id w ok size read =
      let m = string_to_zmq_msg id ∷ encode_task D (gen_task D d) ∷ [] in
      rw (async_process-replicate w id d (with_identity id (drawn ds)) ok.0 size read) (
        async_process_all-tenfold ds id
          (record w { input = with_identity id (drawn ds); log = w.log ++ replicate 10 m }) ok.1
          size refl
        ∙ ap (λ (l : List (List Bytes)). done (record w { input = []; log = l }))
            (append_assoc w.log (replicate 10 m) (tenfold id (drawn ds))))

  -- Polls that find nothing leave the client as it is; the first that finds a task faults.
  async_poll_all-fault :
      (quiet : ℕ) (later : List Bool) (c : AsyncClient) (draw : ℕ → ℕ) (rest : List Bytes)
      → AreDraws draw
      → c.input ≡ encode_task D (gen_task D draw) ∷ rest
      → async_poll_all D (replicate quiet false ++ true ∷ later) c ≡ fault
  unfolding async_poll_all async_poll take_result load_result
  async_poll_all-fault zero later c draw rest ok read =
      let (tag, size) = gen_task-ok D draw ok in
      rw (read, length-encode_task D (gen_task D draw) size) refl
  async_poll_all-fault (suc quiet) later c draw rest ok read =
      async_poll_all-fault quiet later c draw rest ok read

  -- For any tasks that the client draws, at least one: it sends them in order; a worker that gets
  -- them under the client's identity sends each of them back ten times in place of its result; and
  -- the client writes past its TaskResult at the first poll that finds one of these messages,
  -- whatever number of polls has found nothing before.
  pub async_session :
      (id worker_id task_result old_task : Bytes) (draw : ℕ → ℕ) (draws : List (ℕ → ℕ)) (quiet : ℕ)
      (later : List Bool)
      → All AreDraws (draw ∷ draws)
      → length old_task ≡ 8208
      → let client = make_async_client id task_result in
        let worker = make_async_worker worker_id old_task in
        let tasks = drawn (draw ∷ draws) in
        ((async_send_all D (draw ∷ draws) client).log ≡ tasks)
        × (async_process_all D
              (length (draw ∷ draws))
              (record worker { input = with_identity id tasks })
            ≡ done (record worker { log = tenfold id tasks }))
        × (async_poll_all D
              (replicate quiet false ++ true ∷ later)
              (record client { input = payloads (tenfold id tasks) })
            ≡ fault)
  unfolding make_async_client make_async_worker
  async_session id worker_id task_result old_task draw draws quiet later ok size =
      let client = make_async_client id task_result in
      let worker = make_async_worker worker_id old_task in
      let tasks = drawn (draw ∷ draws) in
      (
        ap (λ (c : AsyncClient). c.log) (async_send_all-drawn (draw ∷ draws) client),
        async_process_all-tenfold (draw ∷ draws) id
            (record worker { input = with_identity id tasks }) ok size refl,
        async_poll_all-fault quiet later (record client { input = payloads (tenfold id tasks) })
            draw _ ok.0 refl,
      )
