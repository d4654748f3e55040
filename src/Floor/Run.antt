-- ===== src/Floor/Run.antt =====
-- The threads of a cluster, interleaved in any order: rounds of the broker's loop, and the workers'
-- process. What the broker and the workers have sent waits in their logs until the sockets carry it
-- on; clients and the super broker are the environment.
use sim_tools.Base.{update, ℕ, ◌<◌, ◌≡◌, Bool, List, [], ◌∷◌, ◌++◌, if◌then◌else◌, length, All, ◌≤◌}
use sim_tools.Base.Bytes.{Bytes, bytes_eq}
use sim_tools.Base.Outcome.{done}
use sim_tools.Core.Doubles.{Doubles}
use sim_tools.Core.Envelope.{Envelope, Encodes}
use sim_tools.Cluster.Broker.{
  Broker, Sent, front_end, back_end, cloud_task, arrive, make_broker, poll_round,
}
use sim_tools.Cluster.Worker.{Worker, identity, make_worker, process}

pub record Floor : Type 0 where
  pub broker : Broker
  pub workers : ℕ → Worker

-- The broker's router socket gives a message to the worker with the identity in its first frame.
abbrev pub hand : Sent → Worker → Worker
hand (front_end frames) w = w
hand (cloud_task frames) w = w
hand (back_end []) w = w
hand (back_end (to ∷ frames)) w = record w {
  input = if bytes_eq (identity w.id) to then w.input ++ frames else w.input;
}

-- What a message says: an envelope and a payload.
pub record Letter : Type 0 where
  pub envelope : Envelope
  pub payload : Bytes

-- The frames are those of the letters: with an identity in front of each, or without.
abbrev pub HoldsRouted : List Letter → List Bytes → Type 0
HoldsRouted [] fs = fs ≡ []
HoldsRouted (l ∷ ls) fs =
    (id : Bytes) × (f : Bytes) × (rest : List Bytes) × (fs ≡ id ∷ f ∷ l.payload ∷ rest)
    × Encodes f l.envelope
    × HoldsRouted ls rest

abbrev pub HoldsDealt : List Letter → List Bytes → Type 0
HoldsDealt [] fs = fs ≡ []
HoldsDealt (l ∷ ls) fs =
    (f : Bytes) × (rest : List Bytes) × (fs ≡ f ∷ l.payload ∷ rest)
    × Encodes f l.envelope
    × HoldsDealt ls rest

-- A payload that fits into a TaskRequest.
abbrev pub Fits : Letter → Type 0
Fits l = length l.payload ≤ 8192

module _ (D : Doubles) (pollin : List Bytes → Bool) (n : ℕ) (cluster : Bytes)
    (name : ℕ → Bytes) where
  -- One move of a thread, of the sockets, or of the environment.
  pub data Step (s t : Floor) : Type 0 where
    serve :
        {b : Broker} → poll_round pollin s.broker ≡ done b → t ≡ record s { broker = b } → Step s t
    work :
        (i : ℕ) {w : Worker}
        → i < n
        → process D (s.workers i) ≡ done w
        → t ≡ record s { workers = update s.workers i w }
        → Step s t
    carry :
        {m : Sent} {rest : List Sent}
        → s.broker.log ≡ m ∷ rest
        → t
          ≡ record { broker = record s.broker { log = rest }; workers = λ i. hand m (s.workers i) }
        → Step s t
    report :
        (i : ℕ) {frames : List Bytes} {rest : List (List Bytes)}
        → i < n
        → (s.workers i).log ≡ frames ∷ rest
        → t ≡ record {
          broker =
              arrive s.broker
                (record { back = identity (s.workers i).id ∷ frames; front = []; cloud = [] });
          workers = update s.workers i (record (s.workers i) { log = rest });
        }
        → Step s t
    ask :
        (ls : List Letter) (fs : List Bytes)
        → HoldsRouted ls fs
        → All Fits ls
        → t ≡ record s { broker = arrive s.broker (record { back = []; front = fs; cloud = [] }) }
        → Step s t
    pass_on :
        (ls : List Letter) (fs : List Bytes)
        → HoldsDealt ls fs
        → All Fits ls
        → t ≡ record s { broker = arrive s.broker (record { back = []; front = []; cloud = fs }) }
        → Step s t

  -- What can be reached from the constructed broker and workers.
  pub data Reach : Floor → Type 0 where
    start :
        {s : Floor}
        → make_broker cluster ≡ done s.broker
        → ((i : ℕ) → i < n → make_worker (name i) ≡ done (s.workers i))
        → Reach s
    later : {s t : Floor} → Reach s → Step s t → Reach t
