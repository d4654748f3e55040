-- ===== src/Super/Router.antt =====
-- What the super broker promises, in terms of envelopes: to which cluster each message goes.
use sim_tools.Base.{ℕ, ◌≡◌, ◌||◌, List, [], ◌∷◌, if◌then◌else◌, ◌==◌, All}
use sim_tools.Base.Bytes.{Bytes}
use sim_tools.Core.Types.{task_reply_rejected}
use sim_tools.Core.Names.{IsName}
use sim_tools.Core.Text.{string_to_zmq_msg}
use sim_tools.Core.Wire.{zero_reply}
use sim_tools.Core.Envelope.{Envelope, Encodes, turned}
use sim_tools.Cluster.Broker.{is_alive, is_submit}
use sim_tools.Super.ClusterMap.{ClusterMap, IsOrdered}
use sim_tools.Super.Selection.{find_proper}
use sim_tools.Super.Broker.{is_empty}

-- A message for a cluster.
pub record Parcel : Type 0 where
  pub cluster : Bytes
  pub envelope : Envelope
  pub payload : Bytes

abbrev pub parcel : Bytes → Envelope → Bytes → List Parcel
parcel c e p = record { cluster = c; envelope = e; payload = p } ∷ []

-- A request goes to the chosen cluster, or back to its own with a rejection.
unfoldable pub assign : Bytes × ℕ → Envelope → Bytes → List Parcel
assign (target, count) e p =
    if count == 0 || is_empty target
    then parcel e.from_cluster (record (turned e) { direction = task_reply_rejected }) zero_reply
    else parcel target (record e { to_cluster = target }) p

-- Alive signals and requests with no sender go nowhere; a reply goes to the cluster that it names.
unfoldable pub route : ClusterMap → Envelope → Bytes → List Parcel
unfolding is_alive is_submit assign
route clusters e p =
    if is_alive e.kind
    then []
    else (if is_submit e.direction
        then (if is_empty e.from
            then []
            else (if is_empty e.from_cluster then [] else assign (find_proper [] 0 clusters) e p))
        else parcel e.to_cluster e p)

-- The multipart messages are the parcels, each behind the name of its cluster.
abbrev pub CarriesParcels : List (List Bytes) → List Parcel → Type 0
CarriesParcels [] [] = Unit {0}
CarriesParcels (frames ∷ fs) (d ∷ ds) =
    ((f : Bytes) × (frames ≡ string_to_zmq_msg d.cluster ∷ f ∷ d.payload ∷ [])
      × Encodes f d.envelope)
    × CarriesParcels fs ds
CarriesParcels _ _ = ⊥

-- The names of a map that the super broker holds fit their buffers, and are in order.
pub record IsClusterMap (m : ClusterMap) : Type 0 where
  pub names : All (λ entry. IsName entry.0) m
  pub ordered : IsOrdered m
