-- ===== src/Cluster/Balancer.antt =====
-- What a cluster's broker promises, in terms of envelopes: whom it gives each task to. The state
-- is the cluster's name and the queue of the workers that wait for a task.
use sim_tools.Base.{
  Bool-cases, inl, inr, length, length-append, arith, ◌≡◌, ◌≤◌, suc, List, [], ◌∷◌, ◌++◌,
  if◌then◌else◌,
}
use sim_tools.Base.Bytes.{Bytes, bytes_eq}
use sim_tools.Core.Types.{task_reply_rejected}
use sim_tools.Core.Text.{string_to_zmq_msg}
use sim_tools.Core.Wire.{zero_reply}
use sim_tools.Core.Envelope.{Envelope, Encodes, turned}
use sim_tools.Cluster.Broker.{Sent, front_end, back_end, cloud_task, is_alive, is_submit}

pub record Balancer : Type 0 where
  pub name : Bytes
  pub ready : List Bytes

pub data Target : Type 0 where
  client worker : Bytes → Target
  super_broker : Target

pub record Delivery : Type 0 where
  pub target : Target
  pub envelope : Envelope
  pub payload : Bytes

abbrev pub deliver : Target → Envelope → Bytes → List Delivery
deliver t e p = record { target = t; envelope = e; payload = p } ∷ []

-- A client's request: to the worker that has waited longest, else to the super broker.
unfoldable pub request : Bytes → List Bytes → Envelope → Bytes → List Bytes × List Delivery
request name [] e p = ([], deliver super_broker (record e { from_cluster = name }) p)
request name (w ∷ ws) e p =
    (ws, deliver (worker w) (record e { from_cluster = name; to_cluster = name; to = w }) p)

-- A worker's message: the worker waits again, and its answer goes to where the request came from.
unfoldable pub reply : Bytes → List Bytes → Envelope → Bytes → List Bytes × List Delivery
unfolding is_alive
reply name ready e p = (
  ready ++ e.from ∷ [],
  if is_alive e.kind
      then []
      else deliver (if bytes_eq name e.from_cluster then client e.to else super_broker)
          (record e { to_cluster = e.from_cluster; from_cluster = name }) p,
)

-- A request from another cluster: to a ready worker, unchanged, else back with a rejection.
unfoldable pub foreign_request : List Bytes → Envelope → Bytes → List Bytes × List Delivery
foreign_request [] e p =
    ([], deliver super_broker (record (turned e) { direction = task_reply_rejected }) zero_reply)
foreign_request (w ∷ ws) e p = (ws, deliver (worker w) e p)

-- What the super broker sends: a request, or a reply for one of this cluster's clients.
unfoldable pub from_cloud : List Bytes → Envelope → Bytes → List Bytes × List Delivery
unfolding is_submit foreign_request
from_cloud ready e p =
    if is_submit e.direction then foreign_request ready e p else (ready, deliver (client e.to) e p)

-- The messages of a log are the given deliveries, with the routing frame that the target needs.
pub data Carries : Sent → Delivery → Type 0 where
  to_client :
      {c f p : Bytes} {e : Envelope}
      → Encodes f e
      → Carries
          (front_end (string_to_zmq_msg c ∷ f ∷ p ∷ []))
          (record { target = client c; envelope = e; payload = p })
  to_worker :
      {w f p : Bytes} {e : Envelope}
      → Encodes f e
      → Carries
          (back_end (string_to_zmq_msg w ∷ f ∷ p ∷ []))
          (record { target = worker w; envelope = e; payload = p })
  to_super_broker :
      {f p : Bytes} {e : Envelope}
      → Encodes f e
      → Carries
          (cloud_task (f ∷ p ∷ []))
          (record { target = super_broker; envelope = e; payload = p })

abbrev pub CarriesAll : List Sent → List Delivery → Type 0
CarriesAll [] [] = Unit
CarriesAll (s ∷ ss) (d ∷ ds) = Carries s d × CarriesAll ss ds
CarriesAll _ _ = ⊥

-- How long the queue is after what the broker promises.
pub length-reply :
    (name : Bytes) (q : List Bytes) (e : Envelope) (p : Bytes)
    → length (reply name q e p).0 ≡ suc (length q)
unfolding reply
length-reply name q e p = omega (arith, length-append q (e.from ∷ []))

pub length-request :
    (name : Bytes) (q : List Bytes) (e : Envelope) (p : Bytes)
    → length (request name q e p).0 ≤ length q
unfolding request
length-request name [] e p = omega arith
length-request name (w ∷ ws) e p = omega arith

pub length-foreign_request :
    (q : List Bytes) (e : Envelope) (p : Bytes) → length (foreign_request q e p).0 ≤ length q
unfolding foreign_request
length-foreign_request [] e p = omega arith
length-foreign_request (w ∷ ws) e p = omega arith

pub length-from_cloud :
    (q : List Bytes) (e : Envelope) (p : Bytes) → length (from_cloud q e p).0 ≤ length q
unfolding from_cloud
length-from_cloud q e p = elim (Bool-cases (is_submit e.direction)) [
  | inl submitted ↦ rw submitted (length-foreign_request q e p)
  | inr replied ↦ rw replied (omega arith)
]
