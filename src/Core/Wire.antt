-- ===== src/Core/Wire.antt =====
-- The memcpy calls between structures and message frames. The layout is that of a 64-bit little
-- endian machine with 4-byte enumerations: TaskMeta has 144 bytes, ClusterStateInfo 36, TaskReply 8.
use sim_tools.Base.{ℕ, ◌++◌, leb, length, take, drop, replicate}
use sim_tools.Base.Bytes.{Bytes, le_bytes, from_le}
use sim_tools.Base.Outcome.{Outcome, done, ◌>>◌, in_bounds}
use sim_tools.Core.Types.{
  TaskMeta, ClusterStateInfo, default_meta, default_state_info, type_code, type_of_code,
  direction_code, direction_of_code,
}

abbrev pub sizeof_meta : ℕ
sizeof_meta = 144

abbrev pub sizeof_state_info : ℕ
sizeof_state_info = 36

unfoldable pub encode_meta : TaskMeta → Bytes
encode_meta m =
    from_cluster_id
    ++ (from_id
        ++ (to_cluster_id
            ++ (to_id
                ++ (le_bytes 8 task_id
                    ++ (le_bytes 4 (type_code task_type)
                        ++ le_bytes 4 (direction_code task_direction))))))
  where
    open m use {
      task_addr.{from_cluster_id, from_id, to_cluster_id, to_id},
      task_id,
      task_type,
      task_direction,
    }

unfoldable pub decode_meta : Bytes → TaskMeta
decode_meta b0 =
    let b1 = drop 32 b0 in
    let b2 = drop 32 b1 in
    let b3 = drop 32 b2 in
    let b4 = drop 32 b3 in
    let b5 = drop 8 b4 in
    let b6 = drop 4 b5 in
    record {
      task_addr = record {
        from_cluster_id = take 32 b0;
        from_id = take 32 b1;
        to_cluster_id = take 32 b2;
        to_id = take 32 b3;
      };
      task_id = from_le (take 8 b4);
      task_type = type_of_code (from_le (take 4 b5));
      task_direction = direction_of_code (from_le (take 4 b6));
    }

-- memcpy(&meta, msg.data(), msg.size()) over a freshly initialised structure.
unfoldable pub load_meta : Bytes → Outcome TaskMeta
load_meta msg = do
  in_bounds (leb (length msg) sizeof_meta)
  done (decode_meta (msg ++ drop (length msg) (encode_meta default_meta)))

-- memcpy(msg.data(), &meta, sizeof(TaskMeta)) into a frame of its own size.
unfoldable pub store_meta : TaskMeta → Bytes → Outcome Bytes
store_meta m msg = do
  in_bounds (leb sizeof_meta (length msg))
  done (encode_meta m ++ drop sizeof_meta msg)

unfoldable pub encode_state_info : ClusterStateInfo → Bytes
encode_state_info s = s.cluster_name ++ le_bytes 4 s.ready_worker_count

unfoldable pub decode_state_info : Bytes → ClusterStateInfo
decode_state_info b = record {
  cluster_name = take 32 b;
  ready_worker_count = from_le (take 4 (drop 32 b));
}

unfoldable pub load_state_info : Bytes → Outcome ClusterStateInfo
load_state_info msg = do
  in_bounds (leb (length msg) sizeof_state_info)
  done (decode_state_info (msg ++ drop (length msg) (encode_state_info default_state_info)))

-- The object representation of TaskReply{0.0}.
abbrev pub zero_reply : Bytes
zero_reply = replicate 8 0
