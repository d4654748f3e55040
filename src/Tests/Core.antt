-- ===== src/Tests/Core.antt =====
-- The string helpers and the layout of the structures, at concrete inputs.
use sim_tools.Base.{◌≡◌}
use sim_tools.Base.Outcome.{done}
use sim_tools.Core.Types.{ClusterStateInfo}
use sim_tools.Core.Wire.{encode_meta, load_meta}
use sim_tools.Core.Layout.{load_meta-encode_meta}
use sim_tools.Tests.Data.{buffer1, request_meta, request_meta-IsMeta}

load_meta-encode_meta_example : load_meta (encode_meta request_meta) ≡ done request_meta
load_meta-encode_meta_example = load_meta-encode_meta request_meta request_meta-IsMeta

abbrev three_ready : ClusterStateInfo
three_ready = record { cluster_name = buffer1 65; ready_worker_count = 3 }
