-- ===== src/Trips/Inversion.antt =====
-- The one message of a handler that made one delivery.
use sim_tools.Base.{◌≡◌, refl, ap, subst, List, [], ◌∷◌, ◌++◌}
use sim_tools.Base.Bytes.{Bytes}
use sim_tools.Base.Outcome.{Outcome, done}
use sim_tools.Core.Text.{string_to_zmq_msg}
use sim_tools.Core.Envelope.{Envelope, Encodes}
use sim_tools.Cluster.Broker.{Broker, Sent, front_end, back_end, cloud_task}
use sim_tools.Cluster.Balancer.{
  Target, Delivery, client, worker, super_broker, deliver, Carries, to_client, to_worker,
  to_super_broker, CarriesAll,
}
use sim_tools.Cluster.Routing.{IsBroker, Performs}

-- The message that a delivery becomes, with f for the frame of its metadata.
abbrev pub message : Target → Bytes → Bytes → Sent
message (client c) f p = front_end (string_to_zmq_msg c ∷ f ∷ p ∷ [])
message (worker w) f p = back_end (string_to_zmq_msg w ∷ f ∷ p ∷ [])
message super_broker f p = cloud_task (f ∷ p ∷ [])

one_carried :
    (s : Sent) (d : Delivery)
    → Carries s d
    → (f : Bytes) × (s ≡ message d.target f d.payload) × Encodes f d.envelope
one_carried s d (to_client {f} enc) = (f, refl, enc)
one_carried s d (to_worker {f} enc) = (f, refl, enc)
one_carried s d (to_super_broker {f} enc) = (f, refl, enc)

carried :
    (ss : List Sent) (d : Delivery)
    → CarriesAll ss (d ∷ [])
    → (f : Bytes) × (ss ≡ message d.target f d.payload ∷ []) × Encodes f d.envelope
carried [] d h = elim h [ ]
carried (s ∷ []) d h = let (f, e, enc) = one_carried s d h.0 in (f, ap (λ x. x ∷ []) e, enc)
carried (s ∷ s' ∷ ss) d h = elim h.1 [ ]

-- A handler that made one delivery: where it came to, and the frame that it sent.
pub record Delivers (r : Outcome Broker) (b : Broker) (q : List Bytes) (t : Target) (e : Envelope)
    (p : Bytes) : Type 0 where
  pub after : Broker
  pub frame : Bytes
  pub returns : r ≡ done after
  pub queue : after.work_ready_queue ≡ q
  pub logged : after.log ≡ b.log ++ message t frame p ∷ []
  pub encodes : Encodes frame e
  pub name_kept : after.cluster_name ≡ b.cluster_name
  pub well_formed : IsBroker after

pub Performs-Delivers :
    (r : Outcome Broker) (b : Broker) (q : List Bytes) (t : Target) (e : Envelope) (p : Bytes)
    → Performs r b (q, deliver t e p)
    → Delivers r b q t e p
Performs-Delivers r b q t e p h =
    let (f, sent, enc) =
      carried h.sent (record { target = t; envelope = e; payload = p }) h.messages in
    record {
      after = h.after;
      frame = f;
      returns = h.returns;
      queue = h.queue;
      logged = subst (λ (ss : List Sent). h.after.log ≡ b.log ++ ss) sent h.logged;
      encodes = enc;
      name_kept = h.name_kept;
      well_formed = h.well_formed;
    }
