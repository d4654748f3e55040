-- ===== src/Balance/Hall/Landing.antt =====
-- What an item that moves leaves as it is.
use sim_tools.Base.{ℕ, ◌≡◌, sym, ◌∙◌, List, [], ◌∷◌, ◌++◌, All, All-append}
use sim_tools.Core.Doubles.{Doubles}
use sim_tools.Balance.Worker.{BalanceWorker}
use sim_tools.Balance.Hall.{Customer}
use sim_tools.Balance.Hall.Flight.{
  Item, landed, kept, single_kept, jobs_of, said_of, sent_of, got_of, due_of,
}
use sim_tools.Balance.Hall.View.{ShowsWorker, ShowsCustomer}

pub All-landed {ℓ} :
    (P : Item → Type ℓ) (xs ys : List Item) (it to : Item)
    → All P (xs ++ it ∷ ys)
    → P to
    → All P (landed xs ys it to)
All-landed P xs ys it to h p = All-append P (xs ++ ys) (to ∷ []) (dropped xs h) (p, tt)
  where
    dropped : (zs : List Item) → All P (zs ++ it ∷ ys) → All P (zs ++ ys)
    dropped [] k = k.1
    dropped (z ∷ zs) k = (k.0, dropped zs k.1)

pub All-at {ℓ} : (P : Item → Type ℓ) (xs ys : List Item) (it : Item) → All P (xs ++ it ∷ ys) → P it
All-at P [] ys it h = h.0
All-at P (x ∷ xs) ys it h = All-at P xs ys it h.1

module _ (D : Doubles) (xs ys : List Item) (it to : Item) where
  pub ShowsWorker-landed :
      (k : ℕ) (w : BalanceWorker)
      → jobs_of D k it ≡ []
      → jobs_of D k to ≡ []
      → said_of D k it ≡ []
      → said_of D k to ≡ []
      → ShowsWorker D (xs ++ it ∷ ys) k w
      → ShowsWorker D (landed xs ys it to) k w
  ShowsWorker-landed k w a b c d s = record {
    id_eq = s.id_eq;
    task_size = s.task_size;
    reads = s.reads ∙ sym (kept xs ys it to (jobs_of D k) a b);
    says = s.says ∙ sym (kept xs ys it to (said_of D k) c d);
  }

  pub ShowsCustomer-landed :
      (i : ℕ) (c : Customer D)
      → sent_of D i it ≡ []
      → sent_of D i to ≡ []
      → got_of D i it ≡ []
      → got_of D i to ≡ []
      → due_of i it ≡ due_of i to
      → ShowsCustomer D (xs ++ it ∷ ys) i c
      → ShowsCustomer D (landed xs ys it to) i c
  ShowsCustomer-landed i c a b d e same s =
      let due = single_kept xs ys it to (due_of i) s.one_due same in
      record {
        id_eq = s.id_eq;
        result_size = s.result_size;
        sends = s.sends ∙ sym (kept xs ys it to (sent_of D i) a b);
        gets = s.gets ∙ sym (kept xs ys it to (got_of D i) d e);
        finished = s.finished;
        one_due = rw due s.one_due;
        asked_eq = rw due s.asked_eq;
        results_eq = s.results_eq;
      }
