-- ===== src/Core/Types.antt =====
-- The constants, enumerations and structures of cluster_core.h. A char array is the list of its
-- bytes. An enumeration read from the wire may hold any number: those without a name are `other_…`.
use sim_tools.Base.{ℕ, zero, suc, ◌<◌, ◌^◌, ◌≡◌, All, length, replicate}
use sim_tools.Base.Bytes.{Bytes, IsByte}

abbrev pub k_max_name_size : ℕ
k_max_name_size = 32

abbrev pub k_buffer_size_1024 : ℕ
k_buffer_size_1024 = 1024

pub data TaskDirection : Type 0 where
  task_submit task_reply task_reply_with_error task_reply_rejected : TaskDirection
  other_direction : ℕ → TaskDirection

pub data TaskType : Type 0 where
  normal_task alive_signal : TaskType
  other_type : ℕ → TaskType

pub record TaskAddr : Type 0 where
  pub from_cluster_id : Bytes
  pub from_id : Bytes
  pub to_cluster_id : Bytes
  pub to_id : Bytes

pub record TaskMeta : Type 0 where
  pub task_addr : TaskAddr
  pub task_id : ℕ  -- uint64_t
  pub task_type : TaskType
  pub task_direction : TaskDirection

pub record ClusterStateInfo : Type 0 where
  pub cluster_name : Bytes
  pub ready_worker_count : ℕ  -- uint32_t

-- The initialisers of the members.
abbrev pub empty_name : Bytes
empty_name = replicate k_max_name_size 0

unfoldable pub default_meta : TaskMeta
default_meta = record {
  task_addr = record {
    from_cluster_id = empty_name;
    from_id = empty_name;
    to_cluster_id = empty_name;
    to_id = empty_name;
  };
  task_id = 0;
  task_type = normal_task;
  task_direction = task_submit;
}

unfoldable pub default_state_info : ClusterStateInfo
default_state_info = record { cluster_name = empty_name; ready_worker_count = 0 }

-- The numbers that stand for the enumerators.
unfoldable pub type_code : TaskType → ℕ
type_code normal_task = 0
type_code alive_signal = 1
type_code (other_type n) = suc (suc n)

unfoldable pub type_of_code : ℕ → TaskType
type_of_code zero = normal_task
type_of_code (suc zero) = alive_signal
type_of_code (suc (suc n)) = other_type n

unfoldable pub direction_code : TaskDirection → ℕ
direction_code task_submit = 0
direction_code task_reply = 1
direction_code task_reply_with_error = 2
direction_code task_reply_rejected = 3
direction_code (other_direction n) = suc (suc (suc (suc n)))

unfoldable pub direction_of_code : ℕ → TaskDirection
direction_of_code zero = task_submit
direction_of_code (suc zero) = task_reply
direction_of_code (suc (suc zero)) = task_reply_with_error
direction_of_code (suc (suc (suc zero))) = task_reply_rejected
direction_of_code (suc (suc (suc (suc n)))) = other_direction n

-- An array of n bytes.
abbrev pub IsBuffer : ℕ → Bytes → Type 0
IsBuffer n b = (length b ≡ n) × All IsByte b

-- The values that an object of the structure can hold.
pub record IsAddr (a : TaskAddr) : Type 0 where
  pub from_cluster_ok : IsBuffer 32 a.from_cluster_id
  pub from_ok : IsBuffer 32 a.from_id
  pub to_cluster_ok : IsBuffer 32 a.to_cluster_id
  pub to_ok : IsBuffer 32 a.to_id

pub record IsMeta (m : TaskMeta) : Type 0 where
  pub addr_ok : IsAddr m.task_addr
  pub id_ok : m.task_id < 2 ^ 64
  pub type_ok : type_code m.task_type < 2 ^ 32
  pub direction_ok : direction_code m.task_direction < 2 ^ 32

pub record IsStateInfo (s : ClusterStateInfo) : Type 0 where
  pub name_ok : IsBuffer 32 s.cluster_name
  pub count_ok : s.ready_worker_count < 2 ^ 32
