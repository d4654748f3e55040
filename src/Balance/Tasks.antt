-- ===== src/Balance/Tasks.antt =====
-- Task and TaskResult of load_balance.cpp, and their bytes in a frame.
use sim_tools.Base.{
  ℕ, ◌^◌, ◌<◌, ◌≡◌, refl, sym, ap, ◌∙◌, List, ◌++◌, arith, length, leb, take, drop, length-append,
  take-append, drop-append, drop-length, append-nil, append_assoc,
}
use sim_tools.Base.Bytes.{Bytes, le_bytes, from_le, length-le_bytes, from_le-le_bytes}
use sim_tools.Base.Outcome.{Outcome, done, ◌>>◌, in_bounds}
use sim_tools.Core.Doubles.{Doubles, doubles_of, bytes_of, length-bytes_of, doubles_of-bytes_of}
use sim_tools.Balance.Broker.{sizeof_task}

-- TaskMeta of load_balance.cpp.
pub record Tag : Type 0 where
  pub task_id : ℕ
  pub task_type : ℕ

pub record Task (Double : Type 0) : Type 0 where
  pub tag : Tag
  pub arr : List Double

pub record TaskResult (Double : Type 0) : Type 0 where
  pub tag : Tag
  pub sum : Double

abbrev pub task_size : ℕ
task_size = 1024

abbrev pub sizeof_result : ℕ
sizeof_result = 24

unfoldable pub encode_tag : Tag → Bytes
encode_tag t = le_bytes 8 t.task_id ++ le_bytes 8 t.task_type

unfoldable pub decode_tag : Bytes → Tag
decode_tag b = record { task_id = from_le (take 8 b); task_type = from_le (take 8 (drop 8 b)) }

-- A tag whose members fit into their uint64_t.
pub record IsTag (t : Tag) : Type 0 where
  pub id_ok : t.task_id < 2 ^ 64
  pub type_ok : t.task_type < 2 ^ 64

length-encode_tag : (t : Tag) → length (encode_tag t) ≡ 16
unfolding encode_tag
length-encode_tag t = simp (length-append, length-le_bytes) refl

decode_tag-encode_tag : (t : Tag) (rest : Bytes) → IsTag t → decode_tag (encode_tag t ++ rest) ≡ t
unfolding encode_tag decode_tag
decode_tag-encode_tag t rest ok =
    rw
      (
        append_assoc (le_bytes 8 t.task_id) (le_bytes 8 t.task_type) rest,
        take-append 8 (le_bytes 8 t.task_id) (le_bytes 8 t.task_type ++ rest)
            (length-le_bytes 8 t.task_id),
        drop-append 8 (le_bytes 8 t.task_id) (le_bytes 8 t.task_type ++ rest)
            (length-le_bytes 8 t.task_id),
        take-append 8 (le_bytes 8 t.task_type) rest (length-le_bytes 8 t.task_type),
        from_le-le_bytes 8 t.task_id ok.id_ok,
        from_le-le_bytes 8 t.task_type ok.type_ok,
      )
      refl

module _ (D : Doubles) where
  unfoldable pub encode_task : Task D.Double → Bytes
  encode_task t = encode_tag t.tag ++ bytes_of D t.arr

  unfoldable pub encode_result : TaskResult D.Double → Bytes
  encode_result r = encode_tag r.tag ++ D.to_bytes r.sum

  -- memcpy(&task, msg.data(), msg.size()) over the bytes that the variable holds.
  unfoldable pub load_task : Bytes → Bytes → Outcome (Task D.Double)
  load_task old msg = do
    in_bounds (leb (length msg) sizeof_task)
    let b = msg ++ drop (length msg) old
    done (record { tag = decode_tag b; arr = doubles_of D task_size (drop 16 b) })

  unfoldable pub load_result : Bytes → Bytes → Outcome (TaskResult D.Double)
  load_result old msg = do
    in_bounds (leb (length msg) sizeof_result)
    let b = msg ++ drop (length msg) old
    done (record { tag = decode_tag b; sum = D.of_bytes (drop 16 b) })

  pub length-encode_task : (t : Task D.Double) → length t.arr ≡ 1024 → length (encode_task t) ≡ 8208
  unfolding encode_task
  length-encode_task t h = omega (
    arith,
    length-append (encode_tag t.tag) (bytes_of D t.arr),
    length-encode_tag t.tag,
    length-bytes_of D t.arr,
  )

  encode_task_parts :
      (t : Task D.Double)
      → IsTag t.tag
      → (decode_tag (encode_task t) ≡ t.tag) × (drop 16 (encode_task t) ≡ bytes_of D t.arr)
  unfolding encode_task
  encode_task_parts t ok = (
    decode_tag-encode_tag t.tag (bytes_of D t.arr) ok,
    drop-append 16 (encode_tag t.tag) (bytes_of D t.arr) (length-encode_tag t.tag),
  )

  pub length-encode_result : (r : TaskResult D.Double) → length (encode_result r) ≡ 24
  unfolding encode_result
  length-encode_result r = omega (
    arith,
    length-append (encode_tag r.tag) (D.to_bytes r.sum),
    length-encode_tag r.tag,
    D.to_bytes-length r.sum,
  )

  encode_result_parts :
      (r : TaskResult D.Double)
      → IsTag r.tag
      → (decode_tag (encode_result r) ≡ r.tag) × (drop 16 (encode_result r) ≡ D.to_bytes r.sum)
  unfolding encode_result
  encode_result_parts r ok = (
    decode_tag-encode_tag r.tag (D.to_bytes r.sum) ok,
    drop-append 16 (encode_tag r.tag) (D.to_bytes r.sum) (length-encode_tag r.tag),
  )

  -- A task is loaded as it was stored, whatever the variable held.
  pub load_task-encode_task :
      (old : Bytes) (t : Task D.Double)
      → length old ≡ 8208
      → IsTag t.tag
      → length t.arr ≡ 1024
      → load_task old (encode_task t) ≡ done t
  unfolding load_task
  load_task-encode_task old t l ok h =
      let (a, b) = encode_task_parts t ok in
      rw
        (
          length-encode_task t h,
          drop-length 8208 old (omega arith),
          append-nil (encode_task t),
          a,
          b,
        )
        (ap (λ ds. done (record t { arr = ds }))
          (ap (λ (n : ℕ). doubles_of D n (bytes_of D t.arr)) (sym h) ∙ doubles_of-bytes_of D t.arr))

  -- A result is loaded as it was stored, whatever the variable held.
  pub load_result-encode_result :
      (old : Bytes) (r : TaskResult D.Double)
      → length old ≡ 24
      → IsTag r.tag
      → load_result old (encode_result r) ≡ done r
  unfolding load_result
  load_result-encode_result old r l ok =
      let (a, b) = encode_result_parts r ok in
      rw
        (
          length-encode_result r,
          drop-length 24 old (omega arith),
          append-nil (encode_result r),
          a,
          b,
          D.of_bytes-to_bytes r.sum,
        )
        refl
