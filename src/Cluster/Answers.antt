-- ===== src/Cluster/Answers.antt =====
-- What the worker and the client of cluster_broker.cpp do, in terms of envelopes.
use sim_tools.Base.{
  ◌≤◌, le→leb, ℕ, zero, suc, ◌+◌, ◌%◌, ◌^◌, ◌<◌, ◌≡◌, refl, sym, ap, ◌∙◌, false, List, [], ◌∷◌,
  ◌++◌, length, drop, arith, if◌then◌else◌, drop-length, append-nil, Bool-cases, inl, inr,
}
use sim_tools.Base.Bytes.{Bytes}
use sim_tools.Base.Outcome.{done}
use sim_tools.Core.Types.{
  default_meta, normal_task, alive_signal, task_submit, task_reply, type_code, direction_code,
}
use sim_tools.Core.Names.{IsName}
use sim_tools.Core.Text.{string_to_zmq_msg, c_string}
use sim_tools.Core.Wire.{encode_meta}
use sim_tools.Core.Doubles.{
  Doubles, doubles_of, bytes_of, length-bytes_of, doubles_of-bytes_of, load_request, load_reply,
  sum_from, request_size, zero_bytes, length-zero_bytes,
}
use sim_tools.Core.Envelope.{
  Envelope, Represents, Encodes, Represents-AreNames, direct, retag, put_from_id-Yields,
  put_to_id-Yields, load_meta-Yields,
}
use sim_tools.Cluster.Worker.{Worker, make_worker, process}
use sim_tools.Cluster.Client.{
  Client, answered, rejected, is_reply, gen_array, send_task, receive_result,
}

-- The envelope of a structure with its initial values.
abbrev pub blank : Envelope
blank = record {
  from_cluster = [];
  from = [];
  to_cluster = [];
  to = [];
  task = 0;
  kind = normal_task;
  direction = task_submit;
}

pub blank-Represents :
    (n : ℕ)
    → n < 2 ^ 64
    → Represents (record default_meta { task_id = n }) (record blank { task = n })
unfolding default_meta c_string type_code direction_code
blank-Represents n h = record {
  meta_ok = omega arith;
  from_cluster_read = refl;
  from_read = refl;
  to_cluster_read = refl;
  to_read = refl;
  task_eq = refl;
  kind_eq = refl;
  direction_eq = refl;
}

-- What a worker makes of a task's envelope.
abbrev pub answer : Bytes → Envelope → Envelope
answer id e = record e { to = e.from; from = id; direction = task_reply }

module _ (D : Doubles) where
  -- The array that a client sends is the array that a worker receives.
  pub load_request-bytes_of :
      (ds : List D.Double) → length ds ≡ 1024 → load_request D (bytes_of D ds) ≡ done ds
  unfolding load_request
  load_request-bytes_of ds h =
      let size : length (bytes_of D ds) ≡ 8192 = omega (arith, length-bytes_of D ds) in
      let whole : drop 8192 (zero_bytes 8192) ≡ [] =
        drop-length 8192 (zero_bytes 8192) (omega (arith, length-zero_bytes 8192)) in
      rw (size, whole, append-nil (bytes_of D ds))
        (ap done
          (ap (λ (n : ℕ). doubles_of D n (bytes_of D ds)) (sym h) ∙ doubles_of-bytes_of D ds))

  length-gen_array : (n : ℕ) (draw : ℕ → ℕ) → length (gen_array D n draw) ≡ n
  unfolding gen_array
  length-gen_array zero draw = refl
  length-gen_array (suc n) draw = ap suc (length-gen_array n (λ i. draw (suc i)))

  -- A worker answers a task that it can load to its sender, with the sum of what it has loaded.
  pub process-load :
      (w : Worker) (e : Envelope) (f p : Bytes) (ds : List D.Double) (rest : List Bytes)
      → IsName w.id
      → Encodes f e
      → load_request D p ≡ done ds
      → w.input ≡ f ∷ p ∷ rest
      → (g : Bytes) × Encodes g (answer w.id e)
        × (process D w
            ≡ done (record w {
              input = rest;
              log = w.log ++ (g ∷ D.to_bytes (sum_from D D.zero_double ds) ∷ []) ∷ [];
              work_counter = (w.work_counter + 1) % 2 ^ 32;
            }))
  unfolding process direction_code
  process-load w e f p ds rest ok enc loaded h =
      let (m, l, r) = load_meta-Yields f e enc in
      let names = Represents-AreNames m e r in
      let (m1, p1, r1) = put_to_id-Yields m e e.from r names.from_name in
      let (m2, p2, r2) = put_from_id-Yields m1 _ w.id r1 ok in
      let r3 = direct m2 _ task_reply r2 (omega arith) in
      (
        encode_meta (record m2 { task_direction = task_reply }),
        (_, refl, r3),
        rw (h, l, loaded, r.from_read, p1, p2),
      )

  -- A worker answers a task to its sender, with the sum of the array, and counts it.
  pub process-answer :
      (w : Worker) (e : Envelope) (f : Bytes) (ds : List D.Double) (rest : List Bytes)
      → IsName w.id
      → Encodes f e
      → length ds ≡ 1024
      → w.input ≡ f ∷ bytes_of D ds ∷ rest
      → (g : Bytes) × Encodes g (answer w.id e)
        × (process D w
            ≡ done (record w {
              input = rest;
              log = w.log ++ (g ∷ D.to_bytes (sum_from D D.zero_double ds) ∷ []) ∷ [];
              work_counter = (w.work_counter + 1) % 2 ^ 32;
            }))
  process-answer w e f ds rest ok enc size h =
      process-load w e f (bytes_of D ds) ds rest ok enc (load_request-bytes_of ds size) h

  -- Whatever fits into a TaskRequest can be loaded.
  pub load_request-fits :
      (p : Bytes) → length p ≤ 8192 → (ds : List D.Double) × (load_request D p ≡ done ds)
  unfolding load_request
  load_request-fits p h = rw (le→leb (length p) 8192 h) (_, refl)

  -- A client's task carries its name and its number, and the array as a worker will load it.
  pub send_task-request :
      (c : Client) (draw : ℕ → ℕ) (task_id : ℕ)
      → IsName c.id
      → task_id < 2 ^ 64
      → (g : Bytes) × Encodes g (record blank { from = c.id; task = task_id })
        × (send_task D draw task_id c
            ≡ done (record c {
              log = c.log ++ (g ∷ bytes_of D (gen_array D request_size draw) ∷ []) ∷ [];
            }))
        × (load_request D (bytes_of D (gen_array D request_size draw))
            ≡ done (gen_array D request_size draw))
  unfolding send_task type_code direction_code
  send_task-request c draw task_id ok h =
      let (m, p, r) = put_from_id-Yields _ _ c.id (blank-Represents task_id h) ok in
      let r1 = retag m _ task_submit normal_task r (omega arith) (omega arith) in
      (
        encode_meta (record m { task_direction = task_submit; task_type = normal_task }),
        (_, refl, r1),
        rw p,
        load_request-bytes_of _ (length-gen_array request_size draw),
      )

  -- What the client takes from an answer that has come: the sum in a reply, else a rejection; the
  -- number of the task in both.
  pub receive_result-eq :
      (c : Client) (e : Envelope) (f : Bytes) (sum : D.Double) (rest : List Bytes)
      → Encodes f e
      → c.input ≡ f ∷ D.to_bytes sum ∷ rest
      → receive_result D c
        ≡ done (
          record c { input = rest },
          if is_reply e.direction then answered e.task sum else rejected e.task,
        )
  unfolding receive_result load_reply
  receive_result-eq c e f sum rest enc h =
      let (m, l, r) = load_meta-Yields f e enc in
      let whole : drop 8 (D.to_bytes D.zero_double) ≡ [] =
        drop-length 8 (D.to_bytes D.zero_double) (omega (arith, D.to_bytes-length D.zero_double)) in
      rw (h, l, r.direction_eq, r.task_eq)
        (elim (Bool-cases (is_reply e.direction)) [
          | inl answer ↦ rw (
            answer,
            D.to_bytes-length sum,
            whole,
            append-nil (D.to_bytes sum),
            D.of_bytes-to_bytes sum,
          )
          | inr other ↦ rw other
        ])

  -- An answer that is no reply is a rejection, whatever its payload.
  pub receive_result-rejected :
      (c : Client) (e : Envelope) (f p : Bytes) (rest : List Bytes)
      → Encodes f e
      → is_reply e.direction ≡ false
      → c.input ≡ f ∷ p ∷ rest
      → receive_result D c ≡ done (record c { input = rest }, rejected e.task)
  unfolding receive_result
  receive_result-rejected c e f p rest enc other h =
      let (m, l, r) = load_meta-Yields f e enc in rw (h, l, r.direction_eq, r.task_eq, other)

-- A worker that starts sends a signal that makes it ready, and a frame with no text.
pub make_worker-signal :
    (id : Bytes)
    → IsName id
    → (g : Bytes) × Encodes g
        (record blank { from = id; kind = alive_signal; direction = task_reply })
      × (make_worker id
          ≡ done (record {
            id = id;
            work_counter = 0;
            input = [];
            log = (g ∷ string_to_zmq_msg [] ∷ []) ∷ [];
          }))
unfolding make_worker default_meta type_code direction_code
make_worker-signal id ok =
    let (m, p, r) =
      put_from_id-Yields default_meta blank id (blank-Represents 0 (omega arith)) ok in
    let r1 = retag m _ task_reply alive_signal r (omega arith) (omega arith) in
    (
      encode_meta (record m { task_direction = task_reply; task_type = alive_signal }),
      (_, refl, r1),
      rw p,
    )
