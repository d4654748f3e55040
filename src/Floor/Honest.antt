-- ===== src/Floor/Honest.antt =====
-- What the broker of a cluster at work says to clients, to workers and to the super broker.
use sim_tools.Base.{ℕ, ◌<◌, ◌^◌, ◌≡◌, refl, ◌≢◌, Bool, true, false, List, [], ◌∷◌, ◌⊎◌, All, arith}
use sim_tools.Base.Bytes.{Bytes}
use sim_tools.Core.Doubles.{Doubles}
use sim_tools.Core.Names.{IsName}
use sim_tools.Core.Text.{string_to_zmq_msg}
use sim_tools.Core.Envelope.{Envelope, Encodes}
use sim_tools.Cluster.Broker.{Sent, front_end, back_end, cloud_task, is_submit}
use sim_tools.Cluster.Balancer.{
  Delivery, Carries, to_client, to_worker, to_super_broker, CarriesAll,
}
use sim_tools.Cluster.Config.{worker_name}
use sim_tools.Cluster.Naming.{worker_name-IsName, worker_name-injective}
use sim_tools.Floor.Run.{Floor, Reach}
use sim_tools.Floor.View.{Ledger, IsJob, IsSumOf, IsToCloud, IsSound}
use sim_tools.Floor.Reachable.{ledger, Reach-IsWorking}
use mathlib.Core.List.{Memᴰ}

module _ (D : Doubles) (g : Ledger) (cluster : Bytes) (n : ℕ) (name : ℕ → Bytes) where
  -- A message for a client is a reply that the super broker has passed on with this client as its
  -- addressee, or the sum of a request of this client, under its number. One for a worker is for one of
  -- the cluster's, and is the task of a request. One for the super broker is what it is for, too.
  abbrev pub IsHonest : Sent → Type 0
  IsHonest (front_end frames) =
      (e : Envelope) × (f p : Bytes) × (frames ≡ string_to_zmq_msg e.to ∷ f ∷ p ∷ [])
      × Encodes f e
      × ((Memᴰ (record { envelope = e; payload = p }) g.passed × (is_submit e.direction ≡ false))
          ⊎ IsSumOf D g cluster cluster e p)
  IsHonest (back_end frames) =
      (i : ℕ) × (e : Envelope) × (f p : Bytes) × (i < n)
      × (frames ≡ string_to_zmq_msg (name i) ∷ f ∷ p ∷ [])
      × Encodes f e
      × IsJob D g cluster e p
  IsHonest (cloud_task frames) =
      (e : Envelope) × (f p : Bytes) × (frames ≡ f ∷ p ∷ [])
      × Encodes f e
      × IsToCloud D g cluster e p

  Carries-IsHonest :
      {m : Sent} {d : Delivery}
      → Carries m d
      → IsSound D g cluster n name d.target d.envelope d.payload
      → IsHonest m
  Carries-IsHonest (to_client {c = c} {f = f} {p = p} {e = e} enc) (for_it, origin) =
      (e, f, p, rw for_it refl, enc, origin)
  Carries-IsHonest (to_worker {f = f} {p = p} {e = e} enc) ((i, below, named), job) =
      (i, e, f, p, below, rw named refl, enc, job)
  Carries-IsHonest (to_super_broker {f = f} {p = p} {e = e} enc) h = (e, f, p, refl, enc, h)

  All-IsHonest :
      (log : List Sent) (out : List Delivery)
      → CarriesAll log out
      → All (λ d. IsSound D g cluster n name d.target d.envelope d.payload) out
      → All IsHonest log
  All-IsHonest [] out h s = tt
  All-IsHonest (m ∷ log) [] h s = elim h [ ]
  All-IsHonest (m ∷ log) (d ∷ out) h s = (Carries-IsHonest h.0 s.0, All-IsHonest log out h.1 s.1)

-- In every state that up to 2 ^ 32 - 1 workers and the broker, under a name that fits, can reach with
-- their clients and the super broker, if zmq::poll reports only sockets that have a message:
-- each message that the broker sends to a client is a reply, and no request, that the super broker has
-- passed on with this client as its addressee, or the sum of a request that has this client as its
-- sender, under the request's number, where the request is one that the cluster's clients have sent or
-- one that the super broker has passed on with this cluster as the sender's;
-- each task that it gives to a worker is for one of the cluster's workers, and is, with its payload, a
-- request of the cluster's clients with only the addressee and the clusters' names rewritten, or a
-- request that the super broker has passed on, unchanged;
-- and each message to the super broker is the cluster's own signal, a request of the cluster's clients
-- with this cluster's name, the sum of a request of another cluster, addressed to that cluster and to
-- the request's sender under its number, or a rejection of a request that the super broker has passed
-- on, turned round to its sender.
pub Reach-IsHonest :
    (D : Doubles) (pollin : List Bytes → Bool) (n : ℕ) (cluster : Bytes)
    → ((fs : List Bytes) → pollin fs ≡ true → fs ≢ [])
    → n < 2 ^ 32
    → IsName cluster
    → {s : Floor} (r : Reach D pollin n cluster worker_name s)
    → All (IsHonest D (ledger D pollin n cluster worker_name r) cluster n worker_name) s.broker.log
Reach-IsHonest D pollin n cluster sound few cluster_ok {s = s} r =
    let k =
      Reach-IsWorking D pollin n cluster worker_name sound few cluster_ok
        (λ i _. worker_name-IsName i)
        (λ i j hi hj e. worker_name-injective i j (omega arith) (omega arith) e) r in
    All-IsHonest D _ cluster n worker_name s.broker.log k.hub.out k.shows.sent k.orderly.out_sound
