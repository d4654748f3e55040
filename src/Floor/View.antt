-- ===== src/Floor/View.antt =====
-- What a cluster at work shows: letters in place of frames, and where each worker's turn is.
use sim_tools.Base.{
  ℕ, ◌+◌, ◌*◌, ◌<◌, ◌≡◌, List, [], ◌∷◌, if◌then◌else◌, length, All, ◌⊎◌, true, false,
}
use sim_tools.Base.Bytes.{Bytes, bytes_eq}
use sim_tools.Base.Outcome.{done}
use sim_tools.Core.Doubles.{Doubles, sum_from, load_request}
use sim_tools.Core.Envelope.{Envelope, Encodes, turned}
use sim_tools.Cluster.Broker.{Broker, is_alive, is_submit}
use sim_tools.Cluster.Worker.{Worker}
use sim_tools.Cluster.Answers.{blank}
use sim_tools.Core.Types.{alive_signal, task_reply_rejected}
use sim_tools.Core.Text.{string_to_zmq_msg}
use sim_tools.Core.Wire.{zero_reply}
use sim_tools.Cluster.Balancer.{Target, client, worker, super_broker, Delivery, CarriesAll}
use sim_tools.Cluster.Routing.{IsBroker}
use sim_tools.Floor.Run.{Letter, HoldsRouted, HoldsDealt, Fits}
use mathlib.Core.List.{Memᴰ}

-- The broker: its queue, the letters that are still to be read, and what it has sent.
pub record Hub : Type 0 where
  pub queue : List Bytes
  pub back : List Letter
  pub front : List Letter
  pub cloud : List Letter
  pub out : List Delivery

-- A worker: the tasks that it has been given, and what it has sent.
pub record Bench : Type 0 where
  pub jobs : List Letter
  pub answers : List Letter

pub record ShowsHub (cluster : Bytes) (b : Broker) (h : Hub) : Type 0 where
  pub queue_eq : b.work_ready_queue ≡ h.queue
  pub back_read : HoldsRouted h.back b.back_end_input
  pub front_read : HoldsRouted h.front b.front_end_input
  pub cloud_read : HoldsDealt h.cloud b.cloud_task_input
  pub sent : CarriesAll b.log h.out
  pub name_eq : b.cluster_name ≡ cluster
  pub broker_ok : IsBroker b

-- The multipart messages of a worker's log.
abbrev pub Sends : List Letter → List (List Bytes) → Type 0
Sends [] log = log ≡ []
Sends (l ∷ ls) log =
    (f : Bytes) × (rest : List (List Bytes)) × (log ≡ (f ∷ l.payload ∷ []) ∷ rest)
    × Encodes f l.envelope
    × Sends ls rest

pub record ShowsBench (name : Bytes) (w : Worker) (k : Bench) : Type 0 where
  pub id_eq : w.id ≡ name
  pub jobs_read : HoldsDealt k.jobs w.input
  pub answers_sent : Sends k.answers w.log

abbrev pub hits : Bytes → Bytes → ℕ
hits x y = if bytes_eq x y then 1 else 0

-- How often a worker is ready, has spoken without being heard, and has been given a task that is
-- still on its way.
unfoldable pub waiting : Bytes → List Bytes → ℕ
waiting x [] = 0
waiting x (y ∷ ys) = hits x y + waiting x ys

unfoldable pub unheard : Bytes → List Letter → ℕ
unheard x [] = 0
unheard x (l ∷ ls) = hits x l.envelope.from + unheard x ls

abbrev pub aimed : Bytes → Target → ℕ
aimed x (client c) = 0
aimed x (worker w) = hits x w
aimed x super_broker = 0

unfoldable pub called : Bytes → List Delivery → ℕ
called x [] = 0
called x (d ∷ ds) = aimed x d.target + called x ds

abbrev pub turns : Bytes → Hub → Bench → ℕ
turns x h k =
    waiting x h.queue + unheard x h.back + called x h.out + length k.jobs + length k.answers

-- How many moves of the cluster's own are left, at most: six for a request, and so on.
abbrev pub moves_left : Target → ℕ
moves_left (client c) = 1
moves_left (worker w) = 5
moves_left super_broker = 1

unfoldable pub load : List Delivery → ℕ
load [] = 0
load (d ∷ ds) = moves_left d.target + load ds

abbrev pub weigh : Hub → ℕ
weigh h = 6 * length h.front + 6 * length h.cloud + 2 * length h.back + load h.out

abbrev pub bench_weight : Bench → ℕ
bench_weight k = 4 * length k.jobs + 3 * length k.answers

abbrev pub Known : ℕ → (ℕ → Bytes) → Bytes → Type 0
Known n name x = (i : ℕ) × (i < n) × (x ≡ name i)

-- What has been sent to the cluster: the requests of its clients, and what the super broker has
-- passed on.
pub record Ledger : Type 0 where
  pub asked : List Letter
  pub passed : List Letter

module _ (D : Doubles) (g : Ledger) where
  abbrev pub Asked : Letter → Type 0
  Asked l = Memᴰ l g.asked × Fits l

  abbrev pub Passed : Letter → Type 0
  Passed l = Memᴰ l g.passed × Fits l

  module _ (cluster : Bytes) where
    -- The task of a letter: a client's request, with the cluster's name in both places and a new
    -- addressee, or a request that the super broker has passed on, as it came.
    abbrev pub IsTaskOf : Letter → Envelope → Type 0
    IsTaskOf l e =
        (Memᴰ l g.asked
          × (e ≡ record l.envelope { from_cluster = cluster; to_cluster = cluster; to = e.to }))
        ⊎ (Memᴰ l g.passed × (is_submit l.envelope.direction ≡ true) × (e ≡ l.envelope))

    pub record IsJob (e : Envelope) (p : Bytes) : Type 0 where
      pub origin : Letter
      pub source : IsTaskOf origin e
      pub fits : Fits origin
      pub sender : e.from ≡ origin.envelope.from
      pub number : e.task ≡ origin.envelope.task
      pub same_payload : p ≡ origin.payload

    -- A request by a client of the cluster `asking`: one that this cluster's clients have sent, or one
    -- that the super broker has passed on.
    abbrev pub IsRequestFrom : Bytes → Letter → Type 0
    IsRequestFrom asking l =
        (Memᴰ l g.asked × (asking ≡ cluster))
        ⊎ (Memᴰ l g.passed
            × (is_submit l.envelope.direction ≡ true)
            × (asking ≡ l.envelope.from_cluster))

    -- The sum of such a request, for its sender and under its number.
    pub record IsSumOf (asking : Bytes) (e : Envelope) (p : Bytes) : Type 0 where
      pub origin : Letter
      pub source : IsRequestFrom asking origin
      pub values : List D.Double
      pub loaded : load_request D origin.payload ≡ done values
      pub asker : e.to ≡ origin.envelope.from
      pub number : e.task ≡ origin.envelope.task
      pub total : p ≡ D.to_bytes (sum_from D D.zero_double values)

    -- What a worker says: that it is there, or such a sum, for the cluster that the task came from.
    abbrev pub IsReply : Envelope → Bytes → Type 0
    IsReply e p = (is_alive e.kind ≡ true) ⊎ IsSumOf e.from_cluster e p

    -- What the broker says to the super broker: that the cluster is there; a client's request, under
    -- the cluster's name; the sum of another cluster's request; or that it takes no such request.
    pub data IsToCloud : Envelope → Bytes → Type 0 where
      announced :
          IsToCloud
            (record blank { from_cluster = cluster; kind = alive_signal })
            (string_to_zmq_msg [])
      asked_on :
          {l : Letter}
          → Memᴰ l g.asked
          → IsToCloud (record l.envelope { from_cluster = cluster }) l.payload
      answered_back :
          {e : Envelope} {p : Bytes}
          → bytes_eq cluster e.to_cluster ≡ false
          → IsSumOf e.to_cluster e p
          → IsToCloud e p
      refused :
          {l : Letter}
          → Memᴰ l g.passed
          → is_submit l.envelope.direction ≡ true
          → IsToCloud (record (turned l.envelope) { direction = task_reply_rejected }) zero_reply

    module _ (n : ℕ) (name : ℕ → Bytes) where
      -- A message for a client is a reply that the super broker has passed on, or a sum that it asked
      -- for; a task for a worker is for one of the cluster's.
      abbrev pub IsSound : Target → Envelope → Bytes → Type 0
      IsSound (client c) e p =
          (c ≡ e.to)
          × ((Memᴰ (record { envelope = e; payload = p }) g.passed
                × (is_submit e.direction ≡ false))
              ⊎ IsSumOf cluster e p)
      IsSound (worker w) e p = Known n name w × IsJob e p
      IsSound super_broker e p = IsToCloud e p

      -- Every worker is at one place: it is ready, or it has one task or one message on its way.
      pub record IsOrderly (h : Hub) (bench : ℕ → Bench) : Type 0 where
        pub one_turn : (i : ℕ) → i < n → turns (name i) h (bench i) ≡ 1
        pub queue_known : All (Known n name) h.queue
        pub back_heard :
            All (λ l. Known n name l.envelope.from × IsReply l.envelope l.payload) h.back
        pub out_sound : All (λ d. IsSound d.target d.envelope d.payload) h.out
        pub front_asked : All Asked h.front
        pub cloud_passed : All Passed h.cloud
        pub jobs_due : (i : ℕ) → i < n → All (λ l. IsJob l.envelope l.payload) (bench i).jobs
        pub answers_own :
            (i : ℕ)
            → i < n
            → All (λ l. (l.envelope.from ≡ name i) × IsReply l.envelope l.payload) (bench i).answers
