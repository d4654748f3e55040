-- ===== src/Floor/Round.antt =====
-- A round of the broker's loop, in a cluster that is at work.
use sim_tools.Base.{
  ℕ, ◌+◌, ◌^◌, ◌<◌, ◌≡◌, refl, ap, subst, ◌≢◌, Bool, true, false, List, [], length, arith,
}
use sim_tools.Base.Bytes.{Bytes}
use sim_tools.Base.Outcome.{Outcome, ◌>>=◌}
use sim_tools.Cluster.Broker.{
  Broker, u32_size, route_local_reply, route_local_request, route_cloud, when, poll_round,
}
use sim_tools.Floor.View.{Hub, Bench, ShowsHub, IsOrderly, weigh, Ledger}
use sim_tools.Core.Doubles.{Doubles}
use sim_tools.Floor.Tokens.{queue_bounds}
use sim_tools.Floor.Hub.{
  Goes, KeepsFrontAndCloud, KeepsCloud, Anything, reply-Goes, request-Goes, cloud-Goes,
}

-- A message that is read.
abbrev pub once : Bool → ℕ
once true = 1
once false = 0

module _ (D : Doubles) (g : Ledger) (n : ℕ) (name : ℕ → Bytes) (cluster : Bytes)
    (bench : ℕ → Bench) where
  when-Goes :
      (flag : Bool) (handler : Broker → Outcome Broker) (b : Broker) (h : Hub) (K : Broker → Type 0)
      (spent : ℕ)
      → ShowsHub cluster b h
      → IsOrderly D g cluster n name h bench
      → K b
      → spent ≡ once flag
      → (flag ≡ true → Goes D g n name cluster bench (handler b) K 1 (weigh h))
      → Goes D g n name cluster bench (when flag handler b) K spent (weigh h)
  when-Goes true handler b h K spent s o k same go = rw same (go refl)
  when-Goes false handler b h K spent s o k same go = record {
    after = b;
    hub = h;
    returns = refl;
    shows = s;
    orderly = o;
    known = k;
    light = omega (arith, same);
  }

  then-Goes :
      (r : Outcome Broker) (k : Broker → Outcome Broker) (K L : Broker → Type 0) (x y bound : ℕ)
      → Goes D g n name cluster bench r K x bound
      → ((b : Broker) (h : Hub)
          → ShowsHub cluster b h
          → IsOrderly D g cluster n name h bench
          → K b
          → Goes D g n name cluster bench (k b) L y (weigh h))
      → Goes D g n name cluster bench (r >>= k) L (x + y) bound
  then-Goes r k K L x y bound g go =
      let g' = go g.after g.hub g.shows g.orderly g.known in
      rw g.returns (record {
        after = g'.after;
        hub = g'.hub;
        returns = g'.returns;
        shows = g'.shows;
        orderly = g'.orderly;
        known = g'.known;
        light = omega (arith, g.light, g'.light);
      })

  recounted :
      (b : Broker) (h : Hub)
      → ShowsHub cluster b h
      → ShowsHub cluster (record b { ready_worker_count = u32_size b.work_ready_queue }) h
  recounted b h s = record {
    queue_eq = s.queue_eq;
    back_read = s.back_read;
    front_read = s.front_read;
    cloud_read = s.cloud_read;
    sent = s.sent;
    name_eq = s.name_eq;
    broker_ok = record {
      name_ok = s.broker_ok.name_ok;
      workers_ok = s.broker_ok.workers_ok;
      count_ok = refl;
    };
  }

  -- The counter that is reported is the number of ready workers.
  pub count_exact :
      (b : Broker) (h : Hub)
      → n < 2 ^ 32
      → ShowsHub cluster b h
      → IsOrderly D g cluster n name h bench
      → b.ready_worker_count ≡ length b.work_ready_queue
  count_exact b h few s o =
      omega (arith, s.broker_ok.count_ok, queue_bounds o, ap length s.queue_eq)

  -- `sound` is what zmq::poll documents: a socket that it reports as readable has a message.
  module _ (pollin : List Bytes → Bool)
      (sound : (fs : List Bytes) → pollin fs ≡ true → fs ≢ []) where
    pub poll_round-Goes :
        (b : Broker) (h : Hub)
        → n < 2 ^ 32
        → ShowsHub cluster b h
        → IsOrderly D g cluster n name h bench
        → Goes D g n name cluster bench
            (poll_round pollin b)
            Anything
            (once (pollin b.back_end_input)
              + (once (pollin b.front_end_input) + once (pollin b.cloud_task_input)))
            (weigh h)
    unfolding poll_round
    poll_round-Goes b h few s o =
        let counted = record b { ready_worker_count = u32_size b.work_ready_queue } in
        let s0 = recounted b h s in
        then-Goes _ _ (KeepsFrontAndCloud b) Anything _ _ _
          (when-Goes (pollin b.back_end_input) route_local_reply counted h (KeepsFrontAndCloud b) _
            s0 o (refl, refl) refl
            (λ up.
              reply-Goes D g n name cluster bench counted h.queue h.back h.front h.cloud h.out
                (sound _ up) s0 o))
          (λ b1 h1 s1 o1 k1.
            then-Goes _ _ (KeepsCloud b) Anything _ _ _
              (when-Goes (pollin b.front_end_input) route_local_request b1 h1 (KeepsCloud b) _ s1 o1
                k1.1 refl
                (λ up.
                  subst
                    (λ (c : List Bytes).
                      Goes D g n name cluster bench (route_local_request b1)
                        (λ b'. b'.cloud_task_input ≡ c) 1 (weigh h1))
                    k1.1
                    (request-Goes D g n name cluster bench b1 h1.queue h1.back h1.front h1.cloud
                      h1.out (λ e. sound _ up (rw (← k1.0) e)) s1 o1)))
              (λ b2 h2 s2 o2 k2.
                when-Goes (pollin b.cloud_task_input) route_cloud b2 h2 Anything _ s2 o2 tt refl
                  (λ up.
                    cloud-Goes D g n name cluster bench b2 h2.queue h2.back h2.front h2.cloud h2.out
                      few (λ e. sound _ up (rw (← k2) e)) s2 o2)))
