-- ===== src/Super/Selection.antt =====
-- The loop of SuperBroker::taskRouter that looks for the cluster with the most ready workers.
use sim_tools.Base.{
  ℕ, ◌≤◌, ◌<◌, ◌≡◌, refl, sym, subst, [], ◌∷◌, if◌then◌else◌, ltb, ltb→lt, arith, ◌⊎◌, inl, inr,
  All, Bool-cases,
}
use sim_tools.Base.Bytes.{Bytes}
use sim_tools.Core.Types.{ClusterStateInfo}
use sim_tools.Super.ClusterMap.{ClusterMap}

-- targetCluster and maxCount, over the rest of the map.
unfoldable pub find_proper : Bytes → ℕ → ClusterMap → Bytes × ℕ
find_proper target_cluster max_count [] = (target_cluster, max_count)
find_proper target_cluster max_count ((name, info) ∷ rest) =
    find_proper (if ltb max_count info.ready_worker_count then name else target_cluster)
      (if ltb max_count info.ready_worker_count then info.ready_worker_count else max_count) rest

-- No cluster of the list has more ready workers than n.
abbrev pub AtMost : ℕ → ClusterMap → Type 0
AtMost n = All (λ entry. entry.1.ready_worker_count ≤ n)

-- Every cluster of the list has fewer ready workers than n.
abbrev pub FewerThan : ℕ → ClusterMap → Type 0
FewerThan n = All (λ entry. entry.1.ready_worker_count < n)

-- The entry of a name and a count is in the list, and all entries before it have a smaller count.
pub data FirstWith (name : Bytes) (n : ℕ) : ClusterMap → Type 0 where
  at_head :
      {info : ClusterStateInfo} {m : ClusterMap}
      → info.ready_worker_count ≡ n
      → FirstWith name n ((name, info) ∷ m)
  further :
      {k : Bytes} {info : ClusterStateInfo} {m : ClusterMap}
      → info.ready_worker_count < n
      → FirstWith name n m
      → FirstWith name n ((k, info) ∷ m)

pub find_proper-le : (t : Bytes) (n : ℕ) (m : ClusterMap) → n ≤ (find_proper t n m).1
unfolding find_proper
find_proper-le t n [] = omega arith
find_proper-le t n ((k, info) ∷ m) =
    ground (arith, find_proper-le k info.ready_worker_count m, find_proper-le t n m)

-- The count that the loop ends with is the largest.
pub find_proper-AtMost : (t : Bytes) (n : ℕ) (m : ClusterMap) → AtMost (find_proper t n m).1 m
unfolding find_proper
find_proper-AtMost t n [] = tt
find_proper-AtMost t n ((k, info) ∷ m) = ground (
  arith,
  find_proper-le k info.ready_worker_count m,
  find_proper-le t n m,
  find_proper-AtMost k info.ready_worker_count m,
  find_proper-AtMost t n m,
)

-- A result of the loop begun with the name t and the count n: those, if no entry has more, or the
-- first entry of the largest count.
abbrev pub Found : Bytes → ℕ → ClusterMap → Bytes × ℕ → Type 0
Found t n m r = (r ≡ (t, n)) ⊎ ((n < r.1) × FirstWith r.0 r.1 m)

module _ (t k : Bytes) (n : ℕ) (info : ClusterStateInfo) (m : ClusterMap) (r : Bytes × ℕ) where
  Found-more :
      n < info.ready_worker_count
      → Found k info.ready_worker_count m r
      → Found t n ((k, info) ∷ m) r
  Found-more h (inl e) = inr (
    subst (λ (x : Bytes × ℕ). n < x.1) (sym e) h,
    subst (λ (x : Bytes × ℕ). FirstWith x.0 x.1 ((k, info) ∷ m)) (sym e) (at_head refl),
  )
  Found-more h (inr (above, first)) = inr (omega arith, further above first)

  Found-less : info.ready_worker_count ≤ n → Found t n m r → Found t n ((k, info) ∷ m) r
  Found-less h (inl e) = inl e
  Found-less h (inr (above, first)) = inr (above, further (omega arith) first)

pub find_proper-Found : (t : Bytes) (n : ℕ) (m : ClusterMap) → Found t n m (find_proper t n m)
unfolding find_proper
find_proper-Found t n [] = inl refl
find_proper-Found t n ((k, info) ∷ m) = elim (Bool-cases (ltb n info.ready_worker_count)) [
  | inl more ↦ subst (Found t n ((k, info) ∷ m)) (rw (more, find_proper)) (
      Found-more t k n info m _ (omega (arith, ltb→lt n info.ready_worker_count more))
        (find_proper-Found k info.ready_worker_count m))
  | inr less ↦
      subst (Found t n ((k, info) ∷ m)) (rw (less, find_proper))
        (Found-less t k n info m _ (ground arith) (find_proper-Found t n m))
]

-- The search for a cluster, whatever it begins with: it ends with the largest count, and with the
-- first cluster in the map that has that count, unless none has more than the search began with.
pub find_proper-best :
    (t : Bytes) (n : ℕ) (m : ClusterMap)
    → AtMost (find_proper t n m).1 m × (n ≤ (find_proper t n m).1) × Found t n m (find_proper t n m)
find_proper-best t n m = (find_proper-AtMost t n m, find_proper-le t n m, find_proper-Found t n m)
