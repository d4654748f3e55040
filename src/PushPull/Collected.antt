-- ===== src/PushPull/Collected.antt =====
-- What the collector of tasks_core.cpp sums up.
use sim_tools.Base.{
  ℕ, zero, suc, ◌+◌, ◌/◌, ◌%◌, ◌^◌, ◌<◌, ◌≡◌, refl, sym, ap, ◌∙◌, subst, List, [], ◌∷◌, arith,
  length, take-length,
}
use sim_tools.Base.Bytes.{Bytes, le_bytes, length-le_bytes, from_le-le_bytes}
use sim_tools.Base.Outcome.{done}
use sim_tools.PushPull.Tasks.{
  store_size, load_size, distribute, distribute_tasks, work, work_rounds, collect, collect_results,
}
use mathlib.Core.List.{Permᴰ}

-- The numbers from i on, so many.
abbrev pub range : ℕ → ℕ → List ℕ
range i zero = []
range i (suc n) = i ∷ range (i + 1) n

abbrev pub total : List ℕ → ℕ
total [] = 0
total (n ∷ ns) = n / 2 + total ns

-- The frames of the tasks with the given numbers.
abbrev pub task_frames : List ℕ → List Bytes
task_frames [] = []
task_frames (n ∷ ns) = store_size n ∷ task_frames ns

abbrev result_frames : List ℕ → List Bytes
result_frames [] = []
result_frames (n ∷ ns) = store_size (n / 2) ∷ result_frames ns

abbrev AllSmall : List ℕ → Type 0
AllSmall [] = Unit {0}
AllSmall (n ∷ ns) = (n < 2 ^ 64) × AllSmall ns

load_size-store_size : (n : ℕ) → n < 2 ^ 64 → load_size (store_size n) ≡ done n
unfolding load_size store_size
load_size-store_size n h =
    rw
      (
        length-le_bytes 8 n,
        take-length 8 (le_bytes 8 n) (omega (arith, length-le_bytes 8 n)),
        from_le-le_bytes 8 n h,
      )
      refl

work_rounds-done :
    (ns : List ℕ) → AllSmall ns → work_rounds (length ns) (task_frames ns) ≡ done (result_frames ns)
unfolding work_rounds work
work_rounds-done [] h = refl
work_rounds-done (n ∷ ns) h = rw (load_size-store_size n h.0, work_rounds-done ns h.1) refl

collect-total :
    (ns : List ℕ) (sum : ℕ)
    → sum + total ns < 2 ^ 64
    → collect (length ns) sum (result_frames ns) ≡ done (sum + total ns)
unfolding collect
collect-total [] sum h = ap done (omega arith)
collect-total (n ∷ ns) sum h = rw (load_size-store_size (n / 2) (omega arith)) (
    let small : (sum + n / 2) % 2 ^ 64 ≡ sum + n / 2 = omega arith in
    rw small (collect-total ns (sum + n / 2) (omega arith) ∙ ap done (omega arith)))

-- What an order of the tasks does not change.
record SameTasks (xs ys : List ℕ) : Type 0 where
  same_total : total xs ≡ total ys
  same_length : length xs ≡ length ys
  small : AllSmall xs → AllSmall ys

Permᴰ-SameTasks : {xs ys : List ℕ} → Permᴰ xs ys → SameTasks xs ys
Permᴰ-SameTasks Permᴰ.nil = record { same_total = refl; same_length = refl; small = λ h. h }
Permᴰ-SameTasks (Permᴰ.cons e d) =
    let rest = Permᴰ-SameTasks d in
    record {
      same_total = omega (arith, e, rest.same_total);
      same_length = ap suc rest.same_length;
      small = λ h. (omega (arith, e, h.0), rest.small h.1);
    }
Permᴰ-SameTasks (Permᴰ.swap e f) = record {
  same_total = omega (arith, e, f);
  same_length = refl;
  small = λ h. (omega (arith, f, h.1.0), (omega (arith, e, h.0), h.1.1));
}
Permᴰ-SameTasks (Permᴰ.trans c d) =
    let first = Permᴰ-SameTasks c in
    let second = Permᴰ-SameTasks d in
    record {
      same_total = first.same_total ∙ second.same_total;
      same_length = first.same_length ∙ second.same_length;
      small = λ h. second.small (first.small h);
    }

distribute-range : (i n : ℕ) → distribute i n ≡ task_frames (range i n)
unfolding distribute
distribute-range i zero = refl
distribute-range i (suc n) = ap (◌∷◌ (store_size i)) (distribute-range (i + 1) n)

range-AllSmall : (i n : ℕ) → i + n < 2 ^ 64 → AllSmall (range i n)
range-AllSmall i zero h = tt
range-AllSmall i (suc n) h = (omega arith, range-AllSmall (i + 1) n (omega arith))

-- In whatever order the workers take the distributed tasks, they report a result for each, and the
-- collector's sum is that of the halves of the numbers below 100.
pub collect_results-total :
    (order : List ℕ)
    → Permᴰ (range 0 100) order
    → (results : List Bytes) × (distribute_tasks ≡ task_frames (range 0 100))
      × (work_rounds 100 (task_frames order) ≡ done results)
      × (collect_results results ≡ done 2450)
unfolding distribute_tasks collect_results
collect_results-total order p =
    let same = Permᴰ-SameTasks p in
    let hundred : length order ≡ 100 = sym same.same_length in
    let sum : total order ≡ 2450 = sym same.same_total in
    (
      result_frames order,
      distribute-range 0 100,
      subst (λ (n : ℕ). work_rounds n (task_frames order) ≡ done (result_frames order)) hundred
          (work_rounds-done order (same.small (range-AllSmall 0 100 (omega arith)))),
      subst (λ (n : ℕ). collect n 0 (result_frames order) ≡ done 2450) hundred
          (collect-total order 0 (omega arith) ∙ ap done (omega (arith, sum))),
    )
