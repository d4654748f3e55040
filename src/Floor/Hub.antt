-- ===== src/Floor/Hub.antt =====
-- The broker's handlers, in a cluster that is at work.
use sim_tools.Base.{
  ℕ, ◌+◌, ◌*◌, ◌^◌, ◌<◌, ◌≤◌, ◌≡◌, sym, ap, ◌∙◌, subst, ◌≢◌, List, [], ◌∷◌, ◌++◌, length, All,
  arith,
}
use sim_tools.Base.Bytes.{Bytes}
use sim_tools.Base.Outcome.{Outcome, done}
use sim_tools.Cluster.Broker.{Broker, Sent, route_local_reply, route_local_request, route_cloud}
use sim_tools.Cluster.Balancer.{Delivery, CarriesAll, request, reply, from_cloud}
use sim_tools.Cluster.Routing.{Performs}
use sim_tools.Cluster.Refinement.{
  route_local_request-Performs, route_cloud-Performs, route_local_reply-Performs,
}
use sim_tools.Floor.Run.{Letter, HoldsRouted, HoldsDealt}
use sim_tools.Floor.View.{
  Hub, Bench, ShowsHub, waiting, unheard, Known, IsOrderly, load, weigh, Ledger,
}
use sim_tools.Core.Doubles.{Doubles}
use sim_tools.Floor.Tokens.{queue_bounds, advance, load-append}
use sim_tools.Floor.Promises.{
  request_turns, from_cloud_turns, reply_turns, request_sound, from_cloud_sound, reply_sound,
  load-reply, load-request, load-from_cloud,
}

pub CarriesAll-append :
    (a b : List Sent) (c d : List Delivery)
    → CarriesAll a c
    → CarriesAll b d
    → CarriesAll (a ++ b) (c ++ d)
CarriesAll-append [] b [] d h k = k
CarriesAll-append [] b (x ∷ c) d h k = elim h [ ]
CarriesAll-append (s ∷ a) b [] d h k = elim h [ ]
CarriesAll-append (s ∷ a) b (x ∷ c) d h k = (h.0, CarriesAll-append a b c d h.1 k)

-- What is left of the input of the sockets whose handlers are still to run.
abbrev pub KeepsFrontAndCloud : Broker → Broker → Type 0
KeepsFrontAndCloud b b' =
    (b'.front_end_input ≡ b.front_end_input) × (b'.cloud_task_input ≡ b.cloud_task_input)

abbrev pub KeepsCloud : Broker → Broker → Type 0
KeepsCloud b b' = b'.cloud_task_input ≡ b.cloud_task_input

abbrev pub Anything : Broker → Type 0
Anything b = Unit {0}

-- A piece of the broker's code succeeds, and leaves the cluster in order, with K.
pub record Goes (D : Doubles) (g : Ledger) (n : ℕ) (name : ℕ → Bytes) (cluster : Bytes)
    (bench : ℕ → Bench) (r : Outcome Broker) (K : Broker → Type 0) (spent bound : ℕ) : Type 0 where
  pub after : Broker
  pub hub : Hub
  pub returns : r ≡ done after
  pub shows : ShowsHub cluster after hub
  pub orderly : IsOrderly D g cluster n name hub bench
  pub known : K after
  pub light : weigh hub + spent ≤ bound

module _ (D : Doubles) (g : Ledger) (n : ℕ) (name : ℕ → Bytes) (cluster : Bytes)
    (bench : ℕ → Bench) where
  -- A handler that carries out a promise.
  settle :
      (r : Outcome Broker) (b : Broker) (promise : List Bytes × List Delivery)
      (back front cloud : List Letter) (out : List Delivery) (K : Broker → Type 0) (bound : ℕ)
      (perf : Performs r b promise)
      → HoldsRouted back b.back_end_input
      → HoldsRouted front b.front_end_input
      → HoldsDealt cloud b.cloud_task_input
      → CarriesAll b.log out
      → b.cluster_name ≡ cluster
      → IsOrderly D g cluster n name
          (record {
            queue = promise.0;
            back = back;
            front = front;
            cloud = cloud;
            out = out ++ promise.1;
          })
          bench
      → K perf.after
      → 6 * length front + 6 * length cloud + 2 * length back + (load out + load promise.1) + 1
        ≤ bound
      → Goes D g n name cluster bench r K 1 bound
  settle r b promise back front cloud out K bound perf hb hf hc sent same o k less = record {
    after = perf.after;
    hub = record {
      queue = promise.0;
      back = back;
      front = front;
      cloud = cloud;
      out = out ++ promise.1;
    };
    returns = perf.returns;
    shows = record {
      queue_eq = perf.queue;
      back_read = subst (HoldsRouted back) (sym perf.back_kept) hb;
      front_read = subst (HoldsRouted front) (sym perf.front_kept) hf;
      cloud_read = subst (HoldsDealt cloud) (sym perf.cloud_kept) hc;
      sent =
          subst (λ (l : List Sent). CarriesAll l (out ++ promise.1)) (sym perf.logged)
            (CarriesAll-append b.log perf.sent out promise.1 sent perf.messages);
      name_eq = perf.name_kept ∙ same;
      broker_ok = perf.well_formed;
    };
    orderly = o;
    known = k;
    light = omega (arith, less, load-append out promise.1);
  }

  pub reply-Goes :
      (b : Broker) (q : List Bytes) (back front cloud : List Letter) (out : List Delivery)
      → b.back_end_input ≢ []
      → ShowsHub cluster b
          (record { queue = q; back = back; front = front; cloud = cloud; out = out })
      → IsOrderly D g cluster n name
          (record { queue = q; back = back; front = front; cloud = cloud; out = out })
          bench
      → Goes D g n name cluster bench
          (route_local_reply b)
          (KeepsFrontAndCloud b)
          1
          (weigh (record { queue = q; back = back; front = front; cloud = cloud; out = out }))
  unfolding unheard
  reply-Goes b q [] front cloud out some_left s o = absurd (some_left s.back_read)
  reply-Goes b q (l ∷ ls) front cloud out some_left s o =
      let (id, f, rest, e, enc, more) = s.back_read in
      let perf = route_local_reply-Performs b s.broker_ok l.envelope f l.payload enc id rest e in
      let promise = reply b.cluster_name b.work_ready_queue l.envelope l.payload in
      let known = subst (All (Known n name)) (sym s.queue_eq) o.queue_known in
      let (k, sound) =
        reply_sound D g cluster n name b.cluster_name s.name_eq b.work_ready_queue l.envelope
          l.payload known o.back_heard.0.0 o.back_heard.0.1 in
      settle _ (record b { back_end_input = rest }) promise ls front cloud out
        (KeepsFrontAndCloud b) _ perf more s.front_read s.cloud_read s.sent s.name_eq
        (advance o promise.0 promise.1 ls front cloud
          (λ x. omega (
            arith,
            reply_turns x l.envelope l.payload b.cluster_name b.work_ready_queue,
            ap (waiting x) s.queue_eq,
          ))
          k sound o.back_heard.1 o.front_asked o.cloud_passed)
        (perf.front_kept, perf.cloud_kept)
        (omega (arith, load-reply b.cluster_name b.work_ready_queue l.envelope l.payload))

  pub request-Goes :
      (b : Broker) (q : List Bytes) (back front cloud : List Letter) (out : List Delivery)
      → b.front_end_input ≢ []
      → ShowsHub cluster b
          (record { queue = q; back = back; front = front; cloud = cloud; out = out })
      → IsOrderly D g cluster n name
          (record { queue = q; back = back; front = front; cloud = cloud; out = out })
          bench
      → Goes D g n name cluster bench
          (route_local_request b)
          (KeepsCloud b)
          1
          (weigh (record { queue = q; back = back; front = front; cloud = cloud; out = out }))
  request-Goes b q back [] cloud out some_left s o = absurd (some_left s.front_read)
  request-Goes b q back (l ∷ ls) cloud out some_left s o =
      let (id, f, rest, e, enc, more) = s.front_read in
      let perf = route_local_request-Performs b s.broker_ok l.envelope f l.payload enc id rest e in
      let promise = request b.cluster_name b.work_ready_queue l.envelope l.payload in
      let known = subst (All (Known n name)) (sym s.queue_eq) o.queue_known in
      let (k, sound) =
        request_sound D g cluster n name l.envelope l.payload o.front_asked.0 b.cluster_name
          s.name_eq b.work_ready_queue known in
      settle _ (record b { front_end_input = rest }) promise back ls cloud out (KeepsCloud b) _ perf
        s.back_read more s.cloud_read s.sent s.name_eq
        (advance o promise.0 promise.1 back ls cloud
          (λ x. omega (
            arith,
            request_turns x l.envelope l.payload b.cluster_name b.work_ready_queue,
            ap (waiting x) s.queue_eq,
          ))
          k sound o.back_heard o.front_asked.1 o.cloud_passed)
        perf.cloud_kept
        (omega (arith, load-request b.cluster_name b.work_ready_queue l.envelope l.payload))

  pub cloud-Goes :
      (b : Broker) (q : List Bytes) (back front cloud : List Letter) (out : List Delivery)
      → n < 2 ^ 32
      → b.cloud_task_input ≢ []
      → ShowsHub cluster b
          (record { queue = q; back = back; front = front; cloud = cloud; out = out })
      → IsOrderly D g cluster n name
          (record { queue = q; back = back; front = front; cloud = cloud; out = out })
          bench
      → Goes D g n name cluster bench
          (route_cloud b)
          Anything
          1
          (weigh (record { queue = q; back = back; front = front; cloud = cloud; out = out }))
  cloud-Goes b q back front [] out few some_left s o = absurd (some_left s.cloud_read)
  cloud-Goes b q back front (l ∷ ls) out few some_left s o =
      let (f, rest, e, enc, more) = s.cloud_read in
      let short : length b.work_ready_queue < 2 ^ 32 =
        omega (arith, queue_bounds o, ap length s.queue_eq) in
      let perf = route_cloud-Performs b s.broker_ok l.envelope f l.payload enc rest e short in
      let promise = from_cloud b.work_ready_queue l.envelope l.payload in
      let known = subst (All (Known n name)) (sym s.queue_eq) o.queue_known in
      let (k, sound) =
        from_cloud_sound D g cluster n name l.envelope l.payload o.cloud_passed.0 b.work_ready_queue
          known in
      settle _ (record b { cloud_task_input = rest }) promise back front ls out Anything _ perf
        s.back_read s.front_read more s.sent s.name_eq
        (advance o promise.0 promise.1 back front ls
          (λ x. omega (
            arith,
            from_cloud_turns x l.envelope l.payload b.work_ready_queue,
            ap (waiting x) s.queue_eq,
          ))
          k sound o.back_heard o.front_asked o.cloud_passed.1)
        tt (omega (arith, load-from_cloud b.work_ready_queue l.envelope l.payload))
