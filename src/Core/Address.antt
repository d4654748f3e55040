-- ===== src/Core/Address.antt =====
-- The updates of a task's address that the brokers and the worker make: one call of
-- copyStringToBuffer for each member, and the two calls of swapBuffer that turn a task round.
use sim_tools.Base.Bytes.{Bytes}
use sim_tools.Base.Outcome.{Outcome, done, ◌>>=◌}
use sim_tools.Core.Types.{TaskMeta, k_max_name_size}
use sim_tools.Core.Text.{copy_name, swap_buffer}

unfoldable pub put_from_cluster_id : TaskMeta → Bytes → Outcome TaskMeta
put_from_cluster_id m str = do
  buffer ← copy_name m.task_addr.from_cluster_id str
  done (record m { task_addr = record (m.task_addr) { from_cluster_id = buffer } })

unfoldable pub put_from_id : TaskMeta → Bytes → Outcome TaskMeta
put_from_id m str = do
  buffer ← copy_name m.task_addr.from_id str
  done (record m { task_addr = record (m.task_addr) { from_id = buffer } })

unfoldable pub put_to_cluster_id : TaskMeta → Bytes → Outcome TaskMeta
put_to_cluster_id m str = do
  buffer ← copy_name m.task_addr.to_cluster_id str
  done (record m { task_addr = record (m.task_addr) { to_cluster_id = buffer } })

unfoldable pub put_to_id : TaskMeta → Bytes → Outcome TaskMeta
put_to_id m str = do
  buffer ← copy_name m.task_addr.to_id str
  done (record m { task_addr = record (m.task_addr) { to_id = buffer } })

-- swapBuffer(fromID, toID); swapBuffer(fromClusterID, toClusterID).
unfoldable pub swap_addr : TaskMeta → Outcome TaskMeta
swap_addr m = do
  (from_id, to_id) ← swap_buffer m.task_addr.from_id m.task_addr.to_id k_max_name_size
  (from_cluster_id, to_cluster_id) ←
      swap_buffer m.task_addr.from_cluster_id m.task_addr.to_cluster_id k_max_name_size
  done (record m {
    task_addr = record {
      from_cluster_id = from_cluster_id;
      from_id = from_id;
      to_cluster_id = to_cluster_id;
      to_id = to_id;
    };
  })
