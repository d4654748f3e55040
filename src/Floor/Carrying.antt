-- ===== src/Floor/Carrying.antt =====
-- The moves that the broker's sockets make, in a cluster that is at work.
use sim_tools.Base.{
  ℕ, ◌<◌, ◌≡◌, refl, ◌∙◌, subst, List, [], ◌∷◌, ◌++◌, if◌then◌else◌, length, length-append, All,
  All-append, Bool-cases, inl, inr, arith, append-nil,
}
use sim_tools.Base.Bytes.{Bytes, bytes_eq}
use sim_tools.Core.Doubles.{Doubles}
use sim_tools.Core.Text.{string_to_zmq_msg}
use sim_tools.Core.Envelope.{Encodes}
use sim_tools.Cluster.Broker.{Sent, back_end}
use sim_tools.Cluster.Worker.{Worker, identity}
use sim_tools.Cluster.Balancer.{
  Target, client, worker, super_broker, Delivery, Carries, to_client, to_worker, to_super_broker,
  CarriesAll,
}
use sim_tools.Floor.Run.{Floor, Letter, hand}
use sim_tools.Floor.View.{
  Hub, Bench, ShowsHub, ShowsBench, aimed, called, load, bench_weight, IsSound, IsOrderly, Ledger,
  IsJob,
}
use sim_tools.Floor.Letters.{HoldsDealt-append, identity_test}
use sim_tools.Floor.Benches.{IsWorking, Moved, weight, letter}
use sim_tools.Floor.Sums.{sum-aimed, sum_grown}

module _ (D : Doubles) (g : Ledger) (n : ℕ) (name : ℕ → Bytes) (cluster : Bytes) where
  -- What a message brings to the worker x.
  abbrev brought : Bytes → Target → Letter → List Letter
  brought x (client c) l = []
  brought x (worker to) l = if bytes_eq x to then l ∷ [] else []
  brought x super_broker l = []

  abbrev with : Bench → List Letter → Bench
  with k ls = record k { jobs = k.jobs ++ ls }

  length-brought : (x : Bytes) (t : Target) (l : Letter) → length (brought x t l) ≡ aimed x t
  length-brought x (client c) l = refl
  length-brought x (worker to) l = elim (Bool-cases (bytes_eq x to)) [
    | inl mine ↦ rw mine refl
    | inr other ↦ rw other refl
  ]
  length-brought x super_broker l = refl

  brought-IsJob :
      (x : Bytes) (t : Target) (l : Letter)
      → IsSound D g cluster n name t l.envelope l.payload
      → All (λ m. IsJob D g cluster m.envelope m.payload) (brought x t l)
  brought-IsJob x (client c) l h = tt
  brought-IsJob x (worker to) l h = elim (Bool-cases (bytes_eq x to)) [
    | inl mine ↦ rw mine (h.1, tt)
    | inr other ↦ rw other tt
  ]
  brought-IsJob x super_broker l h = tt

  ShowsBench-nothing :
      (x : Bytes) (w : Worker) (k : Bench) → ShowsBench x w k → ShowsBench x w (with k [])
  ShowsBench-nothing x w k s = record {
    id_eq = s.id_eq;
    jobs_read = rw (append-nil k.jobs) s.jobs_read;
    answers_sent = s.answers_sent;
  }

  ShowsBench-given :
      (x to : Bytes) (w : Worker) (k : Bench) (l : Letter) (f : Bytes)
      → Encodes f l.envelope
      → ShowsBench x w k
      → ShowsBench x
          (hand (back_end (string_to_zmq_msg to ∷ f ∷ l.payload ∷ [])) w)
          (with k (brought x (worker to) l))
  ShowsBench-given x to w k l f enc s =
      let found : bytes_eq (identity w.id) (string_to_zmq_msg to) ≡ bytes_eq x to =
        subst (λ y. bytes_eq (identity w.id) (string_to_zmq_msg to) ≡ bytes_eq y to) s.id_eq
          (identity_test w.id to) in
      elim (Bool-cases (bytes_eq x to)) [
        | inl mine ↦
            rw (found ∙ mine, mine)
              (record {
                id_eq = s.id_eq;
                jobs_read =
                    HoldsDealt-append k.jobs (l ∷ []) w.input (f ∷ l.payload ∷ []) s.jobs_read
                      (f, [], refl, enc, refl);
                answers_sent = s.answers_sent;
              })
        | inr other ↦ rw (found ∙ other, other) (ShowsBench-nothing x w k s)
      ]

  ShowsBench-hand :
      (x : Bytes) (w : Worker) (k : Bench) {m : Sent} {d : Delivery}
      → Carries m d
      → ShowsBench x w k
      → ShowsBench x (hand m w) (with k (brought x d.target (letter d.envelope d.payload)))
  ShowsBench-hand x w k (to_client enc) s = ShowsBench-nothing x w k s
  ShowsBench-hand x w k (to_worker {w = to} {f = f} {p = p} {e = e} enc) s =
      ShowsBench-given x to w k (letter e p) f enc s
  ShowsBench-hand x w k (to_super_broker enc) s = ShowsBench-nothing x w k s

  module _ (distinct : (i j : ℕ) → i < n → j < n → name i ≡ name j → i ≡ j) where
    carry_by :
        (s : Floor) (m : Sent) (rest : List Sent) (hub : Hub) (bench : ℕ → Bench)
        (out : List Delivery)
        → ShowsHub cluster s.broker (record hub { out = out })
        → ((i : ℕ) → i < n → ShowsBench (name i) (s.workers i) (bench i))
        → IsOrderly D g cluster n name (record hub { out = out }) bench
        → CarriesAll (m ∷ rest) out
        → Moved D g n name cluster
            (record {
              broker = record s.broker { log = rest };
              workers = λ i. hand m (s.workers i);
            })
            (weight n (record hub { out = out }) bench)
    unfolding called load
    carry_by s m rest hub bench [] shows works o sent = elim sent [ ]
    carry_by s m rest hub bench (d ∷ ds) shows works o sent =
        let l = letter d.envelope d.payload in
        (
          record {
            hub = record hub { out = ds };
            bench = λ i. with (bench i) (brought (name i) d.target l);
            shows = record {
              queue_eq = shows.queue_eq;
              back_read = shows.back_read;
              front_read = shows.front_read;
              cloud_read = shows.cloud_read;
              sent = sent.1;
              name_eq = shows.name_eq;
              broker_ok = record {
                name_ok = shows.broker_ok.name_ok;
                workers_ok = shows.broker_ok.workers_ok;
                count_ok = shows.broker_ok.count_ok;
              };
            };
            works =
                λ i below. ShowsBench-hand (name i) (s.workers i) (bench i) sent.0 (works i below);
            orderly = record {
              one_turn = λ i below. omega (
                arith,
                o.one_turn i below,
                length-append (bench i).jobs (brought (name i) d.target l),
                length-brought (name i) d.target l,
              );
              queue_known = o.queue_known;
              back_heard = o.back_heard;
              out_sound = o.out_sound.1;
              front_asked = o.front_asked;
              cloud_passed = o.cloud_passed;
              jobs_due = λ i below.
                  All-append (λ m. IsJob D g cluster m.envelope m.payload) (bench i).jobs
                    (brought (name i) d.target l) (o.jobs_due i below)
                    (brought-IsJob (name i) d.target l o.out_sound.0);
              answers_own = o.answers_own;
            };
          },
          omega (
            arith,
            sum-aimed name n d.target distinct,
            sum_grown n (λ i. bench_weight (bench i))
                (λ i. bench_weight (with (bench i) (brought (name i) d.target l)))
                (λ i. aimed (name i) d.target)
                (λ i. omega (
                  arith,
                  length-append (bench i).jobs (brought (name i) d.target l),
                  length-brought (name i) d.target l,
                )),
          ),
        )

    -- The broker's socket carries what the broker has sent first.
    pub carry_on :
        (s : Floor) (m : Sent) (rest : List Sent) (k : IsWorking D g n name cluster s)
        → s.broker.log ≡ m ∷ rest
        → Moved D g n name cluster
            (record {
              broker = record s.broker { log = rest };
              workers = λ i. hand m (s.workers i);
            })
            (weight n k.hub k.bench)
    carry_on s m rest k e =
        carry_by s m rest k.hub k.bench k.hub.out k.shows k.works k.orderly
          (subst (λ (log : List Sent). CarriesAll log k.hub.out) e k.shows.sent)
