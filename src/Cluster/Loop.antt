-- ===== src/Cluster/Loop.antt =====
-- The poll loop of LocalBalanceBroker, on well-formed traffic.
use sim_tools.Base.{
  ℕ, suc, ◌+◌, ◌^◌, ◌<◌, ◌≡◌, refl, sym, subst, ◌≢◌, Bool, true, false, List, [], ◌∷◌, length,
  arith, All,
}
use sim_tools.Base.Bytes.{Bytes}
use sim_tools.Base.Outcome.{Outcome, done, ◌>>=◌}
use sim_tools.Cluster.Broker.{
  Broker, Arrivals, u32_size, route_local_reply, route_local_request, route_cloud, when, arrive,
  poll_round, run_task,
}
use sim_tools.Cluster.Traffic.{Routed, Dealt, Routed-append, Dealt-append}
use sim_tools.Cluster.Balancer.{length-reply, length-request, length-from_cloud, Delivery}
use sim_tools.Cluster.Routing.{IsBroker, Performs}
use sim_tools.Cluster.Refinement.{
  route_local_request-Performs, route_cloud-Performs, route_local_reply-Performs,
}

-- A broker whose input is well formed, with room for n more workers in its queue.
pub record IsServing (b : Broker) (n : ℕ) : Type 0 where
  pub broker_ok : IsBroker b
  pub back_ok : Routed b.back_end_input
  pub front_ok : Routed b.front_end_input
  pub cloud_ok : Dealt b.cloud_task_input
  pub room : length b.work_ready_queue + n < 2 ^ 32

-- A step succeeds and leaves a broker that serves, with the property K.
abbrev pub Serves : Outcome Broker → ℕ → (Broker → Type 0) → Type 0
Serves r n K = (b : Broker) × (r ≡ done b) × IsServing b n × K b

-- What is left of the input of the sockets whose handlers are still to run.
abbrev KeepsFrontAndCloud : Broker → Broker → Type 0
KeepsFrontAndCloud b b' =
    (b'.front_end_input ≡ b.front_end_input) × (b'.cloud_task_input ≡ b.cloud_task_input)

abbrev KeepsCloud : Broker → Broker → Type 0
KeepsCloud b b' = b'.cloud_task_input ≡ b.cloud_task_input

abbrev pub Anything : Broker → Type 0
Anything b = Unit {0}

Performs-Serves :
    (r : Outcome Broker) (b : Broker) (promise : List Bytes × List Delivery) (n : ℕ)
    (K : Broker → Type 0) (h : Performs r b promise)
    → Routed b.back_end_input
    → Routed b.front_end_input
    → Dealt b.cloud_task_input
    → length promise.0 + n < 2 ^ 32
    → K h.after
    → Serves r n K
Performs-Serves r b promise n K h back front cloud room k = (
  h.after,
  h.returns,
  record {
    broker_ok = h.well_formed;
    back_ok = subst Routed (sym h.back_kept) back;
    front_ok = subst Routed (sym h.front_kept) front;
    cloud_ok = subst Dealt (sym h.cloud_kept) cloud;
    room = subst (λ (q : List Bytes). length q + n < 2 ^ 32) (sym h.queue) room;
  },
  k,
)

reply_serves :
    (b : Broker) (n : ℕ) (fs : List Bytes)
    → IsServing b (suc n)
    → b.back_end_input ≡ fs
    → fs ≢ []
    → Routed fs
    → Serves (route_local_reply b) n (KeepsFrontAndCloud b)
reply_serves b n [] s h some_left r = absurd (some_left refl)
reply_serves b n fs s h some_left (Routed.message {id} {f} {p} {rest} {e} enc r) =
    let step = route_local_reply-Performs b s.broker_ok e f p enc id rest h in
    Performs-Serves _ (record b { back_end_input = rest }) _ n (KeepsFrontAndCloud b) step r
      s.front_ok s.cloud_ok
      (omega (arith, length-reply b.cluster_name b.work_ready_queue e p, s.room))
      (step.front_kept, step.cloud_kept)

request_serves :
    (b : Broker) (n : ℕ) (fs : List Bytes)
    → IsServing b n
    → b.front_end_input ≡ fs
    → fs ≢ []
    → Routed fs
    → Serves (route_local_request b) n (KeepsCloud b)
request_serves b n [] s h some_left r = absurd (some_left refl)
request_serves b n fs s h some_left (Routed.message {id} {f} {p} {rest} {e} enc r) =
    let step = route_local_request-Performs b s.broker_ok e f p enc id rest h in
    Performs-Serves _ (record b { front_end_input = rest }) _ n (KeepsCloud b) step s.back_ok r
      s.cloud_ok (omega (arith, length-request b.cluster_name b.work_ready_queue e p, s.room))
      step.cloud_kept

cloud_serves :
    (b : Broker) (n : ℕ) (fs : List Bytes)
    → IsServing b n
    → b.cloud_task_input ≡ fs
    → fs ≢ []
    → Dealt fs
    → Serves (route_cloud b) n Anything
cloud_serves b n [] s h some_left r = absurd (some_left refl)
cloud_serves b n fs s h some_left (Dealt.message {f} {p} {rest} {e} enc r) =
    Performs-Serves _ (record b { cloud_task_input = rest }) _ n Anything
      (route_cloud-Performs b s.broker_ok e f p enc rest h (omega (arith, s.room))) s.back_ok
      s.front_ok r (omega (arith, length-from_cloud b.work_ready_queue e p, s.room)) tt

-- A guarded handler serves if it does so with the guard up, and if b itself has K.
when_serves :
    (flag : Bool) (handler : Broker → Outcome Broker) (b : Broker) (n : ℕ) (K : Broker → Type 0)
    → IsServing b n
    → K b
    → (flag ≡ true → Serves (handler b) n K)
    → Serves (when flag handler b) n K
when_serves true handler b n K s k h = h refl
when_serves false handler b n K s k h = (b, refl, s, k)

then_serves :
    (r : Outcome Broker) (k : Broker → Outcome Broker) (n l : ℕ) (K L : Broker → Type 0)
    → Serves r n K
    → ((b : Broker) → IsServing b n → K b → Serves (k b) l L)
    → Serves (r >>= k) l L
then_serves r k n l K L (b, e, s, known) h = rw e (h b s known)

less_room : (b : Broker) (n : ℕ) → IsServing b (suc n) → IsServing b n
less_room b n s = record {
  broker_ok = s.broker_ok;
  back_ok = s.back_ok;
  front_ok = s.front_ok;
  cloud_ok = s.cloud_ok;
  room = omega (arith, s.room);
}

recounted :
    (b : Broker) (n : ℕ)
    → IsServing b n
    → IsServing (record b { ready_worker_count = u32_size b.work_ready_queue }) n
recounted b n s = record {
  broker_ok = record {
    name_ok = s.broker_ok.name_ok;
    workers_ok = s.broker_ok.workers_ok;
    count_ok = refl;
  };
  back_ok = s.back_ok;
  front_ok = s.front_ok;
  cloud_ok = s.cloud_ok;
  room = s.room;
}

-- `sound` is what zmq::poll documents: a socket that it reports as readable has a message.
module _ (pollin : List Bytes → Bool) (sound : (fs : List Bytes) → pollin fs ≡ true → fs ≢ []) where
  poll_round-serves :
      (b : Broker) (n : ℕ) → IsServing b (suc n) → Serves (poll_round pollin b) n Anything
  unfolding poll_round
  poll_round-serves b n s =
      let counted = record b { ready_worker_count = u32_size b.work_ready_queue } in
      let ready = recounted b (suc n) s in
      then_serves _ _ n n (KeepsFrontAndCloud b) Anything
        (when_serves (pollin b.back_end_input) route_local_reply counted n (KeepsFrontAndCloud b)
          (less_room counted n ready) (refl, refl)
          (λ up. reply_serves counted n b.back_end_input ready refl (sound _ up) s.back_ok))
        (λ b1 s1 k1.
          then_serves _ _ n n (KeepsCloud b) Anything
            (when_serves (pollin b.front_end_input) route_local_request b1 n (KeepsCloud b) s1 k1.1
              (λ up.
                subst
                  (λ (c : List Bytes).
                    Serves (route_local_request b1) n (λ b'. b'.cloud_task_input ≡ c))
                  k1.1 (request_serves b1 n b.front_end_input s1 k1.0 (sound _ up) s.front_ok)))
            (λ b2 s2 k2.
              when_serves (pollin b.cloud_task_input) route_cloud b2 n Anything s2 tt
                (λ up. cloud_serves b2 n b.cloud_task_input s2 k2 (sound _ up) s.cloud_ok)))

  arrive-serves :
      (b : Broker) (a : Arrivals) (n : ℕ)
      → Routed a.back
      → Routed a.front
      → Dealt a.cloud
      → IsServing b n
      → IsServing (arrive b a) n
  arrive-serves b a n back front cloud s = record {
    broker_ok = record {
      name_ok = s.broker_ok.name_ok;
      workers_ok = s.broker_ok.workers_ok;
      count_ok = s.broker_ok.count_ok;
    };
    back_ok = Routed-append s.back_ok back;
    front_ok = Routed-append s.front_ok front;
    cloud_ok = Dealt-append s.cloud_ok cloud;
    room = s.room;
  }

  -- For as long as well-formed messages arrive and the queue has room for one more worker in each
  -- round, the loop neither faults nor waits, and the broker stays well formed.
  pub run_task-serves :
      (b : Broker) (rounds : List Arrivals) (n : ℕ)
      → All (λ a. Routed a.back × Routed a.front × Dealt a.cloud) rounds
      → IsServing b (length rounds + n)
      → Serves (run_task pollin b rounds) n Anything
  unfolding run_task
  run_task-serves b [] n ok s = (b, refl, subst (IsServing b) (omega arith) s, tt)
  run_task-serves b (a ∷ rest) n ok s =
      then_serves _ _ (length rest + n) n Anything Anything
        (poll_round-serves (arrive b a) (length rest + n)
          (arrive-serves b a _ ok.0.0 ok.0.1 ok.0.2 (subst (IsServing b) (omega arith) s)))
        (λ b1 s1 _. run_task-serves b1 rest n ok.1 s1)
