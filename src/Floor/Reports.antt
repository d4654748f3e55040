-- ===== src/Floor/Reports.antt =====
-- What a worker has sent reaches the broker.
use sim_tools.Base.{
  update, update_all, update_both, ℕ, ◌<◌, ◌≡◌, refl, sym, ap, ◌∙◌, subst, List, [], ◌∷◌, ◌++◌, All,
  All-append, arith, length, length-append, append-nil,
}
use sim_tools.Base.Bytes.{Bytes}
use sim_tools.Core.Doubles.{Doubles}
use sim_tools.Cluster.Broker.{arrive}
use sim_tools.Cluster.Worker.{Worker, identity}
use sim_tools.Floor.Run.{Floor, Letter}
use sim_tools.Floor.View.{
  Hub, Bench, ShowsHub, ShowsBench, Sends, unheard, turns, bench_weight, Known, IsOrderly, Ledger,
  IsJob, IsReply,
}
use sim_tools.Floor.Letters.{HoldsRouted-append}
use sim_tools.Floor.Tokens.{hits_self, hits_other, unheard-append}
use sim_tools.Floor.Benches.{IsWorking, Moved, weight}
use sim_tools.Floor.Sums.{sum_update}
use mathlib.Core.List.{head-eq_of_cons-eq, tail-eq_of_cons-eq}

module _ (D : Doubles) (g : Ledger) (n : ℕ) (name : ℕ → Bytes) (cluster : Bytes)
    (distinct : (i j : ℕ) → i < n → j < n → name i ≡ name j → i ≡ j) where
  -- The place of every worker after worker i has been heard.
  heard :
      (hub : Hub) (bench : ℕ → Bench) (i : ℕ) (l : Letter) (ls : List Letter)
      → IsOrderly D g cluster n name hub bench
      → i < n
      → (bench i).answers ≡ l ∷ ls
      → IsOrderly D g cluster n name
          (record hub { back = hub.back ++ l ∷ [] })
          (update bench i (record (bench i) { answers = ls }))
  unfolding unheard
  heard hub bench i l ls o below here =
      let after : Bench = record (bench i) { answers = ls } in
      let own =
        subst (All (λ x. (x.envelope.from ≡ name i) × IsReply D g cluster x.envelope x.payload))
          here (o.answers_own i below) in
      record {
        one_turn =
            update_all
              (λ j k. j < n → turns (name j) (record hub { back = hub.back ++ l ∷ [] }) k ≡ 1) bench
              i after
              (λ _. omega (
                arith,
                o.one_turn i below,
                ap length here,
                unheard-append (name i) hub.back (l ∷ []),
                hits_self (name i) l.envelope.from (sym own.0.0),
              ))
              (λ j other below'. omega (
                arith,
                o.one_turn j below',
                unheard-append (name j) hub.back (l ∷ []),
                hits_other (name j) l.envelope.from
                    (λ e. other (distinct i j below below' (sym (e ∙ own.0.0)))),
              ));
        queue_known = o.queue_known;
        back_heard =
            All-append
              (λ x. Known n name x.envelope.from × IsReply D g cluster x.envelope x.payload)
              hub.back (l ∷ []) o.back_heard (((i, below, own.0.0), own.0.1), tt);
        out_sound = o.out_sound;
        front_asked = o.front_asked;
        cloud_passed = o.cloud_passed;
        jobs_due =
            update_all (λ j k. j < n → All (λ x. IsJob D g cluster x.envelope x.payload) k.jobs)
              bench i after (λ _. o.jobs_due i below) (λ j _. o.jobs_due j);
        answers_own =
            update_all
              (λ j k.
                j < n
                → All (λ x. (x.envelope.from ≡ name j) × IsReply D g cluster x.envelope x.payload)
                    k.answers)
              bench i after (λ _. own.1) (λ j _. o.answers_own j);
      }

  report_by :
      (s : Floor) (hub : Hub) (bench : ℕ → Bench) (i : ℕ) (frames : List Bytes)
      (rest : List (List Bytes)) (answers : List Letter)
      → ShowsHub cluster s.broker hub
      → ((j : ℕ) → j < n → ShowsBench (name j) (s.workers j) (bench j))
      → IsOrderly D g cluster n name hub bench
      → i < n
      → (bench i).answers ≡ answers
      → Sends answers (frames ∷ rest)
      → Moved D g n name cluster
          (record {
            broker =
                arrive s.broker
                  (record { back = identity (s.workers i).id ∷ frames; front = []; cloud = [] });
            workers = update s.workers i (record (s.workers i) { log = rest });
          })
          (weight n hub bench)
  report_by s hub bench i frames rest [] shows works o below here sent = absurd (cc)
  report_by s hub bench i frames rest (l ∷ ls) shows works o below here sent =
      let (f, more, e, enc, later) = sent in
      let after : Bench = record (bench i) { answers = ls } in
      let w : Worker = record (s.workers i) { log = rest } in
      (
        record {
          hub = record hub { back = hub.back ++ l ∷ [] };
          bench = update bench i after;
          shows = record {
            queue_eq = shows.queue_eq;
            back_read =
                HoldsRouted-append hub.back (l ∷ []) s.broker.back_end_input
                  (identity (s.workers i).id ∷ frames) shows.back_read
                  (identity (s.workers i).id, f, [], rw (head-eq_of_cons-eq e) refl, enc, refl);
            front_read = rw (append-nil s.broker.front_end_input) shows.front_read;
            cloud_read = rw (append-nil s.broker.cloud_task_input) shows.cloud_read;
            sent = shows.sent;
            name_eq = shows.name_eq;
            broker_ok = record {
              name_ok = shows.broker_ok.name_ok;
              workers_ok = shows.broker_ok.workers_ok;
              count_ok = shows.broker_ok.count_ok;
            };
          };
          works =
              update_both (λ j w k. j < n → ShowsBench (name j) w k) s.workers bench i w after
                (λ _. record {
                  id_eq = (works i below).id_eq;
                  jobs_read = (works i below).jobs_read;
                  answers_sent = subst (Sends ls) (sym (tail-eq_of_cons-eq e)) later;
                })
                works;
          orderly = heard hub bench i l ls o below here;
        },
        omega (
          arith,
          sum_update bench_weight n bench i after below,
          ap length here,
          length-append hub.back (l ∷ []),
        ),
      )

  -- The broker's socket receives what a worker has sent first.
  pub report_on :
      (s : Floor) (i : ℕ) (frames : List Bytes) (rest : List (List Bytes))
      (k : IsWorking D g n name cluster s)
      → i < n
      → (s.workers i).log ≡ frames ∷ rest
      → Moved D g n name cluster
          (record {
            broker =
                arrive s.broker
                  (record { back = identity (s.workers i).id ∷ frames; front = []; cloud = [] });
            workers = update s.workers i (record (s.workers i) { log = rest });
          })
          (weight n k.hub k.bench)
  report_on s i frames rest k below e =
      report_by s k.hub k.bench i frames rest (k.bench i).answers k.shows k.works k.orderly below
        refl (subst (Sends (k.bench i).answers) e (k.works i below).answers_sent)
