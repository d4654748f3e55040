-- ===== src/Floor/Promises.antt =====
-- Where the promises of the broker's handlers leave the turns of the workers.
use sim_tools.Base.{
  ℕ, ◌+◌, ◌≤◌, ◌≡◌, refl, List, [], ◌∷◌, length, All, All-append, Bool-cases, inl, inr, arith,
  if◌then◌else◌, true, subst, sym,
}
use sim_tools.Base.Bytes.{Bytes, bytes_eq, bytes_eq_iff}
use sim_tools.Core.Envelope.{Envelope}
use sim_tools.Cluster.Broker.{is_alive, is_submit}
use sim_tools.Cluster.Balancer.{
  client, super_broker, Delivery, deliver, request, reply, from_cloud, foreign_request,
}
use sim_tools.Core.Doubles.{Doubles}
use sim_tools.Floor.View.{
  hits, waiting, called, load, Known, IsSound, Ledger, IsTaskOf, IsJob, IsRequestFrom, IsSumOf,
  IsReply, asked_on, answered_back, refused, Asked, Passed,
}
use sim_tools.Floor.Tokens.{waiting-append}

-- What the broker promises moves a worker's turn from the queue to the task that it is given, or
-- from the worker's message to the queue.
module _ (x : Bytes) (e : Envelope) (p : Bytes) where
  pub request_turns :
      (c : Bytes) (q : List Bytes)
      → waiting x (request c q e p).0 + called x (request c q e p).1 ≡ waiting x q
  unfolding request waiting called
  request_turns c [] = refl
  request_turns c (w ∷ ws) = omega arith

  foreign_request_turns :
      (q : List Bytes)
      → waiting x (foreign_request q e p).0 + called x (foreign_request q e p).1 ≡ waiting x q
  unfolding foreign_request waiting called
  foreign_request_turns [] = refl
  foreign_request_turns (w ∷ ws) = omega arith

  pub from_cloud_turns :
      (q : List Bytes)
      → waiting x (from_cloud q e p).0 + called x (from_cloud q e p).1 ≡ waiting x q
  unfolding from_cloud called
  from_cloud_turns q = elim (Bool-cases (is_submit e.direction)) [
    | inl submitted ↦ rw submitted (foreign_request_turns q)
    | inr replied ↦ rw replied (omega arith)
  ]

  pub reply_turns :
      (c : Bytes) (q : List Bytes)
      → waiting x (reply c q e p).0 + called x (reply c q e p).1 ≡ waiting x q + hits x e.from
  unfolding reply waiting called
  reply_turns c q = elim (Bool-cases (is_alive e.kind)) [
    | inl alive ↦ rw alive (omega (arith, waiting-append x q (e.from ∷ [])))
    | inr task ↦ rw task (elim (Bool-cases (bytes_eq c e.from_cluster)) [
      | inl own ↦ rw own (omega (arith, waiting-append x q (e.from ∷ [])))
      | inr other ↦ rw other (omega (arith, waiting-append x q (e.from ∷ [])))
    ])
  ]

-- What the broker promises takes fewer moves than what it has read.
module _ (c : Bytes) (q : List Bytes) (e : Envelope) (p : Bytes) where
  pub load-reply : load (reply c q e p).1 ≤ 1
  unfolding reply load
  load-reply = elim (Bool-cases (is_alive e.kind)) [
    | inl alive ↦ rw alive (omega arith)
    | inr task ↦ rw task (elim (Bool-cases (bytes_eq c e.from_cluster)) [
      | inl own ↦ rw own (omega arith)
      | inr other ↦ rw other (omega arith)
    ])
  ]

pub load-request :
    (c : Bytes) (q : List Bytes) (e : Envelope) (p : Bytes) → load (request c q e p).1 ≤ 5
unfolding request load
load-request c [] e p = omega arith
load-request c (w ∷ ws) e p = omega arith

load-foreign_request :
    (q : List Bytes) (e : Envelope) (p : Bytes) → load (foreign_request q e p).1 ≤ 5
unfolding foreign_request load
load-foreign_request [] e p = omega arith
load-foreign_request (w ∷ ws) e p = omega arith

pub load-from_cloud : (q : List Bytes) (e : Envelope) (p : Bytes) → load (from_cloud q e p).1 ≤ 5
unfolding from_cloud load
load-from_cloud q e p = elim (Bool-cases (is_submit e.direction)) [
  | inl submitted ↦ rw submitted (load-foreign_request q e p)
  | inr replied ↦ rw replied (omega arith)
]

module _ (D : Doubles) (g : Ledger) (cluster : Bytes) (n : ℕ) (name : ℕ → Bytes) where
  abbrev AllSound : List Delivery → Type 0
  AllSound ds = All (λ d. IsSound D g cluster n name d.target d.envelope d.payload) ds

  module _ (e : Envelope) (p : Bytes) where
    -- A request that has come, as a task for a worker.
    due :
        (task : Envelope)
        → IsTaskOf D g cluster (record { envelope = e; payload = p }) task
        → length p ≤ 8192
        → task.from ≡ e.from
        → task.task ≡ e.task
        → IsJob D g cluster task p
    due task source fits sender number = record {
      origin = record { envelope = e; payload = p };
      source = source;
      fits = fits;
      sender = sender;
      number = number;
      same_payload = refl;
    }

    pub request_sound :
        Asked D g (record { envelope = e; payload = p })
        → (c : Bytes) → c ≡ cluster
        → (q : List Bytes) → All (Known n name) q
        → All (Known n name) (request c q e p).0 × AllSound (request c q e p).1
    unfolding request
    request_sound (sent, fits) c same [] h = rw same (tt, (asked_on sent, tt))
    request_sound (sent, fits) c same (w ∷ ws) h =
        rw same (h.1, ((h.0, due _ (inl (sent, refl)) fits refl refl), tt))

    foreign_request_sound :
        Passed D g (record { envelope = e; payload = p })
        → is_submit e.direction ≡ true
        → (q : List Bytes) → All (Known n name) q
        → All (Known n name) (foreign_request q e p).0 × AllSound (foreign_request q e p).1
    unfolding foreign_request
    foreign_request_sound (sent, fits) submitted [] h = (tt, (refused sent submitted, tt))
    foreign_request_sound (sent, fits) submitted (w ∷ ws) h =
        (h.1, ((h.0, due _ (inr (sent, submitted, refl)) fits refl refl), tt))

    pub from_cloud_sound :
        Passed D g (record { envelope = e; payload = p })
        → (q : List Bytes) → All (Known n name) q
        → All (Known n name) (from_cloud q e p).0 × AllSound (from_cloud q e p).1
    unfolding from_cloud
    from_cloud_sound passed q h = elim (Bool-cases (is_submit e.direction)) [
      | inl submitted ↦ rw submitted (foreign_request_sound passed submitted q h)
      | inr replied ↦ rw replied (h, ((refl, inl (passed.0, replied)), tt))
    ]

  -- A sum stays one of its request under new names of clusters.
  redirected :
      (asking asking' : Bytes) (e : Envelope) (p from_c to_c : Bytes)
      → asking ≡ asking'
      → IsSumOf D g cluster asking e p
      → IsSumOf D g cluster asking' (record e { to_cluster = to_c; from_cluster = from_c }) p
  redirected asking asking' e p from_c to_c same sum = record {
    origin = sum.origin;
    source = subst (λ a. IsRequestFrom D g cluster a sum.origin) same sum.source;
    values = sum.values;
    loaded = sum.loaded;
    asker = sum.asker;
    number = sum.number;
    total = sum.total;
  }

  -- A worker's answer is for the client that it names, if the task came from this cluster, and goes to
  -- the super broker otherwise.
  answered :
      (e : Envelope) (p : Bytes)
      → IsSumOf D g cluster e.from_cluster e p
      → AllSound (
          deliver
            (if bytes_eq cluster e.from_cluster then client e.to else super_broker)
            (record e { to_cluster = e.from_cluster; from_cluster = cluster })
            p)
  answered e p sum = elim (Bool-cases (bytes_eq cluster e.from_cluster)) [
    | inl own ↦
        let home : e.from_cluster ≡ cluster = sym ((bytes_eq_iff cluster e.from_cluster).0 own) in
        rw own ((refl, inr (redirected _ _ e p _ _ home sum)), tt)
    | inr other ↦ rw other (answered_back other (redirected _ _ e p _ _ refl sum), tt)
  ]

  pub reply_sound :
      (c : Bytes)
      → c ≡ cluster
      → (q : List Bytes) (e : Envelope) (p : Bytes) → All (Known n name) q
      → Known n name e.from
      → IsReply D g cluster e p
      → All (Known n name) (reply c q e p).0 × AllSound (reply c q e p).1
  unfolding reply
  reply_sound c same q e p h k said = (
    All-append (Known n name) q (e.from ∷ []) h (k, tt),
    rw same (elim (Bool-cases (is_alive e.kind)) [
      | inl alive ↦ rw alive tt
      | inr task ↦ rw task (elim said [ inl alive ↦ absurd (cc) | inr sum ↦ answered e p sum ])
    ]),
  )
