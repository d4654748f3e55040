-- ===== src/Floor/Ledgers.antt =====
-- What has been sent to a cluster, which grows from state to state.
use sim_tools.Base.{ℕ, List, [], ◌∷◌, ◌++◌, inl, inr, All, All-map, All-of_members}
use sim_tools.Base.Bytes.{Bytes}
use sim_tools.Core.Doubles.{Doubles}
use sim_tools.Core.Envelope.{Envelope}
use sim_tools.Cluster.Balancer.{Target, client, worker, super_broker}
use sim_tools.Floor.Run.{Floor, Letter, Fits}
use sim_tools.Floor.View.{
  Hub, Bench, Ledger, IsJob, IsSumOf, IsReply, IsToCloud, announced, asked_on, answered_back,
  refused, IsSound, IsOrderly, Asked, Passed,
}
use sim_tools.Floor.Benches.{IsWorking}
use mathlib.Core.List.{Memᴰ}
use mathlib.Core.List.Memᴰ

abbrev pub nothing_sent : Ledger
nothing_sent = record { asked = []; passed = [] }

abbrev pub with_asked : Ledger → List Letter → Ledger
with_asked g ls = record g { asked = g.asked ++ ls }

abbrev pub with_passed : Ledger → List Letter → Ledger
with_passed g ls = record g { passed = g.passed ++ ls }

pub record Grows (g g' : Ledger) : Type 0 where
  pub asked_kept : (l : Letter) → Memᴰ l g.asked → Memᴰ l g'.asked
  pub passed_kept : (l : Letter) → Memᴰ l g.passed → Memᴰ l g'.passed

pub with_asked-Grows : (g : Ledger) (ls : List Letter) → Grows g (with_asked g ls)
with_asked-Grows g ls = record { asked_kept = λ l m. Memᴰ.append_left ls m; passed_kept = λ l m. m }

pub with_passed-Grows : (g : Ledger) (ls : List Letter) → Grows g (with_passed g ls)
with_passed-Grows g ls = record {
  asked_kept = λ l m. m;
  passed_kept = λ l m. Memᴰ.append_left ls m;
}

-- Letters at the end of a list are in it.
pub are_last :
    (before ls : List Letter) → All Fits ls → All (λ l. Memᴰ l (before ++ ls) × Fits l) ls
are_last before ls fit =
    both ls fit (All-of_members (λ l. Memᴰ l (before ++ ls)) ls (λ l m. Memᴰ.append_right before m))
  where
    both :
        (ms : List Letter)
        → All Fits ms
        → All (λ l. Memᴰ l (before ++ ls)) ms
        → All (λ l. Memᴰ l (before ++ ls) × Fits l) ms
    both [] f m = tt
    both (x ∷ ms) f m = ((m.0, f.0), both ms f.1 m.1)

module _ (D : Doubles) {g g' : Ledger} (grows : Grows g g') (cluster : Bytes) where
  IsJob-still : (e : Envelope) (p : Bytes) → IsJob D g cluster e p → IsJob D g' cluster e p
  IsJob-still e p j = record {
    origin = j.origin;
    source = elim j.source [
      | inl (sent, same) ↦ inl (grows.asked_kept j.origin sent, same)
      | inr (sent, submitted, same) ↦ inr (grows.passed_kept j.origin sent, submitted, same)
    ];
    fits = j.fits;
    sender = j.sender;
    number = j.number;
    same_payload = j.same_payload;
  }

  IsSumOf-still :
      (asking : Bytes) (e : Envelope) (p : Bytes)
      → IsSumOf D g cluster asking e p
      → IsSumOf D g' cluster asking e p
  IsSumOf-still asking e p s = record {
    origin = s.origin;
    source = elim s.source [
      | inl (sent, same) ↦ inl (grows.asked_kept s.origin sent, same)
      | inr (sent, submitted, same) ↦ inr (grows.passed_kept s.origin sent, submitted, same)
    ];
    values = s.values;
    loaded = s.loaded;
    asker = s.asker;
    number = s.number;
    total = s.total;
  }

  IsToCloud-still :
      (e : Envelope) (p : Bytes) → IsToCloud D g cluster e p → IsToCloud D g' cluster e p
  IsToCloud-still e p announced = announced
  IsToCloud-still e p (asked_on sent) = asked_on (grows.asked_kept _ sent)
  IsToCloud-still e p (answered_back other sum) = answered_back other (IsSumOf-still _ e p sum)
  IsToCloud-still e p (refused sent submitted) = refused (grows.passed_kept _ sent) submitted

  IsReply-still : (e : Envelope) (p : Bytes) → IsReply D g cluster e p → IsReply D g' cluster e p
  IsReply-still e p (inl alive) = inl alive
  IsReply-still e p (inr sum) = inr (IsSumOf-still e.from_cluster e p sum)

  module _ (n : ℕ) (name : ℕ → Bytes) where
    IsSound-still :
        (t : Target) (e : Envelope) (p : Bytes)
        → IsSound D g cluster n name t e p
        → IsSound D g' cluster n name t e p
    IsSound-still (client c) e p (for_it, inl (passed, replied)) =
        (for_it, inl (grows.passed_kept (record { envelope = e; payload = p }) passed, replied))
    IsSound-still (client c) e p (for_it, inr sum) = (for_it, inr (IsSumOf-still cluster e p sum))
    IsSound-still (worker w) e p (known, job) = (known, IsJob-still e p job)
    IsSound-still super_broker e p h = IsToCloud-still e p h

    IsOrderly-still :
        {h : Hub} {bench : ℕ → Bench}
        → IsOrderly D g cluster n name h bench
        → IsOrderly D g' cluster n name h bench
    IsOrderly-still {h = h} {bench = bench} o = record {
      one_turn = o.one_turn;
      queue_known = o.queue_known;
      back_heard =
          All-map _ _ h.back (λ l k. (k.0, IsReply-still l.envelope l.payload k.1)) o.back_heard;
      out_sound = All-map _ _ h.out (λ d. IsSound-still d.target d.envelope d.payload) o.out_sound;
      front_asked =
          All-map (Asked D g) (Asked D g') h.front (λ l k. (grows.asked_kept l k.0, k.1))
            o.front_asked;
      cloud_passed =
          All-map (Passed D g) (Passed D g') h.cloud (λ l k. (grows.passed_kept l k.0, k.1))
            o.cloud_passed;
      jobs_due = λ i below.
          All-map _ _ (bench i).jobs (λ l. IsJob-still l.envelope l.payload) (o.jobs_due i below);
      answers_own = λ i below.
          All-map _ _ (bench i).answers (λ l k. (k.0, IsReply-still l.envelope l.payload k.1))
            (o.answers_own i below);
    }

    -- A cluster at work is so whatever else has been sent to it.
    pub IsWorking-still :
        {s : Floor} → IsWorking D g n name cluster s → IsWorking D g' n name cluster s
    IsWorking-still k = record {
      hub = k.hub;
      bench = k.bench;
      shows = k.shows;
      works = k.works;
      orderly = IsOrderly-still k.orderly;
    }
