-- ===== src/Floor/Sockets.antt =====
-- The requests and the messages of the super broker that come in, in a cluster that is at work.
use sim_tools.Base.{ℕ, refl, List, [], ◌++◌, All, All-append, arith}
use sim_tools.Base.Bytes.{Bytes}
use sim_tools.Cluster.Broker.{Broker, arrive}
use sim_tools.Floor.Run.{Floor, Letter, HoldsRouted, HoldsDealt}
use sim_tools.Floor.View.{Hub, ShowsHub, unheard, Known, Ledger, IsReply, Asked, Passed}
use sim_tools.Core.Doubles.{Doubles}
use sim_tools.Floor.Letters.{HoldsRouted-append, HoldsDealt-append}
use sim_tools.Floor.Tokens.{unheard-append}
use sim_tools.Floor.Benches.{IsWorking}

-- The broker after frames have come in.
ShowsHub-arrive :
    (cluster : Bytes) (b : Broker) (h : Hub) (ls ms ns : List Letter)
    (back front cloud : List Bytes)
    → ShowsHub cluster b h
    → HoldsRouted ls back
    → HoldsRouted ms front
    → HoldsDealt ns cloud
    → ShowsHub cluster (arrive b (record { back = back; front = front; cloud = cloud })) (record {
      queue = h.queue;
      back = h.back ++ ls;
      front = h.front ++ ms;
      cloud = h.cloud ++ ns;
      out = h.out;
    })
ShowsHub-arrive cluster b h ls ms ns back front cloud s hl hm hn = record {
  queue_eq = s.queue_eq;
  back_read = HoldsRouted-append h.back ls b.back_end_input back s.back_read hl;
  front_read = HoldsRouted-append h.front ms b.front_end_input front s.front_read hm;
  cloud_read = HoldsDealt-append h.cloud ns b.cloud_task_input cloud s.cloud_read hn;
  sent = s.sent;
  name_eq = s.name_eq;
  broker_ok = record {
    name_ok = s.broker_ok.name_ok;
    workers_ok = s.broker_ok.workers_ok;
    count_ok = s.broker_ok.count_ok;
  };
}

module _ (D : Doubles) (g : Ledger) (n : ℕ) (name : ℕ → Bytes) (cluster : Bytes) where
  -- Requests of clients, and messages of the super broker.
  pub take_in :
      (s : Floor) (ms ns : List Letter) (front cloud : List Bytes)
      → IsWorking D g n name cluster s
      → HoldsRouted ms front
      → HoldsDealt ns cloud
      → All (Asked D g) ms
      → All (Passed D g) ns
      → IsWorking D g n name cluster (record s {
        broker = arrive s.broker (record { back = []; front = front; cloud = cloud });
      })
  unfolding unheard
  take_in s ms ns front cloud k hm hn fm fn =
      let o = k.orderly in
      record {
        hub = record {
          queue = k.hub.queue;
          back = k.hub.back ++ [];
          front = k.hub.front ++ ms;
          cloud = k.hub.cloud ++ ns;
          out = k.hub.out;
        };
        bench = k.bench;
        shows = ShowsHub-arrive cluster s.broker k.hub [] ms ns [] front cloud k.shows refl hm hn;
        works = k.works;
        orderly = record {
          one_turn =
              λ i below. omega (arith, o.one_turn i below, unheard-append (name i) k.hub.back []);
          queue_known = o.queue_known;
          back_heard =
              All-append
                (λ l. Known n name l.envelope.from × IsReply D g cluster l.envelope l.payload)
                k.hub.back [] o.back_heard tt;
          out_sound = o.out_sound;
          front_asked = All-append (Asked D g) k.hub.front ms o.front_asked fm;
          cloud_passed = All-append (Passed D g) k.hub.cloud ns o.cloud_passed fn;
          jobs_due = o.jobs_due;
          answers_own = o.answers_own;
        };
      }
