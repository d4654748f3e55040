-- ===== src/Core/Layout.antt =====
-- What holds of the layout of the structures in message frames.
use sim_tools.Base.{
  ℕ, ◌<◌, ◌≡◌, refl, ◌++◌, arith, length, take, drop, length-append, take-append, drop-append,
  drop-length, take-length, append-nil,
}
use sim_tools.Base.Bytes.{Bytes, le_bytes, length-le_bytes, from_le-le_bytes}
use sim_tools.Base.Outcome.{done, fault}
use sim_tools.Core.Types.{
  TaskType, TaskDirection, TaskMeta, ClusterStateInfo, IsMeta, IsStateInfo, default_meta,
  default_state_info, normal_task, task_submit, type_code, type_of_code, direction_code,
  direction_of_code,
}
use sim_tools.Core.Wire.{
  encode_meta, decode_meta, load_meta, store_meta, encode_state_info, decode_state_info,
  load_state_info,
}

type_of_code-type_code : (t : TaskType) → type_of_code (type_code t) ≡ t
unfolding type_code type_of_code
type_of_code-type_code normal_task = refl
type_of_code-type_code _ = refl

direction_of_code-direction_code : (d : TaskDirection) → direction_of_code (direction_code d) ≡ d
unfolding direction_code direction_of_code
direction_of_code-direction_code task_submit = refl
direction_of_code-direction_code _ = refl

pub length-encode_meta : (m : TaskMeta) → IsMeta m → length (encode_meta m) ≡ 144
unfolding encode_meta
length-encode_meta m h = simp (length-append, length-le_bytes) (omega arith)

-- Cutting off the next member of a structure.
pub next_member :
    (n : ℕ) (a r : Bytes) → length a ≡ n → (take n (a ++ r) ≡ a) × (drop n (a ++ r) ≡ r)
next_member n a r h = (take-append n a r h, drop-append n a r h)

-- Reading a TaskMeta out of its bytes gives it back.
pub decode_meta-encode_meta : (m : TaskMeta) → IsMeta m → decode_meta (encode_meta m) ≡ m
unfolding encode_meta decode_meta
decode_meta-encode_meta m h =
    let last = le_bytes 4 (direction_code m.task_direction) in
    let r6 = le_bytes 4 (type_code m.task_type) ++ last in
    let r5 = le_bytes 8 m.task_id ++ r6 in
    let r4 = m.task_addr.to_id ++ r5 in
    let r3 = m.task_addr.to_cluster_id ++ r4 in
    let r2 = m.task_addr.from_id ++ r3 in
    let p1 = next_member 32 m.task_addr.from_cluster_id r2 h.addr_ok.from_cluster_ok.0 in
    let p2 = next_member 32 m.task_addr.from_id r3 h.addr_ok.from_ok.0 in
    let p3 = next_member 32 m.task_addr.to_cluster_id r4 h.addr_ok.to_cluster_ok.0 in
    let p4 = next_member 32 m.task_addr.to_id r5 h.addr_ok.to_ok.0 in
    let p5 = next_member 8 (le_bytes 8 m.task_id) r6 (length-le_bytes 8 m.task_id) in
    let p6 = next_member 4 (le_bytes 4 (type_code m.task_type)) last (length-le_bytes 4 _) in
    let p7 =
      take-length 4 last (omega (arith, length-le_bytes 4 (direction_code m.task_direction))) in
    rw (p1.0, p1.1, p2.0, p2.1, p3.0, p3.1, p4.0, p4.1, p5.0, p5.1, p6.0, p6.1, p7)
      (rw (
        from_le-le_bytes 8 m.task_id h.id_ok,
        from_le-le_bytes 4 (type_code m.task_type) h.type_ok,
        from_le-le_bytes 4 (direction_code m.task_direction) h.direction_ok,
        type_of_code-type_code m.task_type,
        direction_of_code-direction_code m.task_direction,
      ))

-- The initial structures are well formed.
pub default_meta-IsMeta : IsMeta default_meta
unfolding default_meta type_code direction_code
default_meta-IsMeta = omega arith

default_state_info-IsStateInfo : IsStateInfo default_state_info
unfolding default_state_info
default_state_info-IsStateInfo = omega arith

-- Receiving the frame that holds a structure gives the structure.
pub load_meta-encode_meta : (m : TaskMeta) → IsMeta m → load_meta (encode_meta m) ≡ done m
unfolding load_meta
load_meta-encode_meta m h = rw (
  length-encode_meta m h,
  drop-length 144 (encode_meta default_meta)
      (omega (arith, length-encode_meta default_meta default_meta-IsMeta)),
  append-nil (encode_meta m),
  decode_meta-encode_meta m h,
)

-- Writing a structure back into a frame of its size replaces the frame.
pub store_meta-done :
    (m : TaskMeta) (msg : Bytes) → length msg ≡ 144 → store_meta m msg ≡ done (encode_meta m)
unfolding store_meta
store_meta-done m msg l = rw (l, drop-length 144 msg (omega arith), append-nil (encode_meta m))

-- A frame that holds fewer bytes than the structure is written past its end.
pub store_meta-fault : (m : TaskMeta) (msg : Bytes) → length msg < 144 → store_meta m msg ≡ fault
unfolding store_meta
store_meta-fault m msg l = ground arith

-- A frame that holds more bytes than the structure overflows it.
pub load_meta-fault : (msg : Bytes) → 144 < length msg → load_meta msg ≡ fault
unfolding load_meta
load_meta-fault msg l = ground arith

pub length-encode_state_info :
    (s : ClusterStateInfo) → IsStateInfo s → length (encode_state_info s) ≡ 36
unfolding encode_state_info
length-encode_state_info s h = simp (length-append, length-le_bytes) (omega arith)

decode_state_info-encode :
    (s : ClusterStateInfo) → IsStateInfo s → decode_state_info (encode_state_info s) ≡ s
unfolding decode_state_info encode_state_info
decode_state_info-encode s h =
    let count = le_bytes 4 s.ready_worker_count in
    let p1 = next_member 32 s.cluster_name count h.name_ok.0 in
    let p2 = take-length 4 count (omega (arith, length-le_bytes 4 s.ready_worker_count)) in
    rw (p1.0, p1.1, p2, from_le-le_bytes 4 s.ready_worker_count h.count_ok)

-- Receiving the frame that holds a cluster's state gives the state.
pub load_state_info-encode :
    (s : ClusterStateInfo) → IsStateInfo s → load_state_info (encode_state_info s) ≡ done s
unfolding load_state_info
load_state_info-encode s h = rw (
  length-encode_state_info s h,
  drop-length 36 (encode_state_info default_state_info)
      (omega (arith, length-encode_state_info default_state_info default_state_info-IsStateInfo)),
  append-nil (encode_state_info s),
  decode_state_info-encode s h,
)
