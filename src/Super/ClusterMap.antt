-- ===== src/Super/ClusterMap.antt =====
-- clusterInfoMap_ of SuperBroker: a std::map from cluster names to their states, as the list of its
-- entries in the order of its keys.
use sim_tools.Base.{◌≡◌, refl, true, false, List, [], ◌∷◌, Option, none, some, if◌then◌else◌, arith}
use sim_tools.Base.Bytes.{Bytes, bytes_eq, bytes_lt, bytes_eq_iff}
use sim_tools.Core.Types.{ClusterStateInfo}

abbrev pub ClusterMap : Type 0
ClusterMap = List (Bytes × ClusterStateInfo)

-- clusterInfoMap_[key] = info.
unfoldable pub insert : Bytes → ClusterStateInfo → ClusterMap → ClusterMap
insert key info [] = (key, info) ∷ []
insert key info ((k, i) ∷ m) =
    if bytes_eq k key
    then (key, info) ∷ m
    else (if bytes_lt key k then (key, info) ∷ (k, i) ∷ m else (k, i) ∷ insert key info m)

unfoldable pub lookup : Bytes → ClusterMap → Option ClusterStateInfo
lookup key [] = none
lookup key ((k, i) ∷ m) = if bytes_eq k key then some i else lookup key m

-- The keys rise along the list.
abbrev pub Above : Bytes → ClusterMap → Type 0
Above key [] = Unit {0}
Above key ((k, i) ∷ m) = (bytes_lt key k ≡ true) × Above k m

abbrev pub IsOrdered : ClusterMap → Type 0
IsOrdered [] = Unit {0}
IsOrdered ((k, i) ∷ m) = Above k m

-- Two byte strings are equal, or one is below the other.
bytes_total : (a b : Bytes) → bytes_eq a b ≡ false → bytes_lt a b ≡ false → bytes_lt b a ≡ true
unfolding bytes_eq bytes_lt
bytes_total [] [] e l = cc
bytes_total [] (y ∷ b) e l = cc
bytes_total (x ∷ a) [] e l = refl
bytes_total (x ∷ a) (y ∷ b) e l = ground (arith, bytes_total a b)

insert-Above :
    (low key : Bytes) (info : ClusterStateInfo) (m : ClusterMap)
    → bytes_lt low key ≡ true
    → Above low m
    → Above low (insert key info m)
unfolding insert
insert-Above low key info [] h o = (h, tt)
insert-Above low key info ((k, i) ∷ m) h o =
    ground (arith, bytes_eq_iff k key, bytes_total k key, insert-Above k key info m)

-- An assignment keeps the keys in order.
pub insert-IsOrdered :
    (key : Bytes) (info : ClusterStateInfo) (m : ClusterMap)
    → IsOrdered m
    → IsOrdered (insert key info m)
unfolding insert
insert-IsOrdered key info [] o = tt
insert-IsOrdered key info ((k, i) ∷ m) o =
    ground (arith, bytes_eq_iff k key, bytes_total k key, insert-Above k key info m)

-- After an assignment the key has the new state, and every other key the state it had.
pub lookup-insert :
    (key k : Bytes) (info : ClusterStateInfo) (m : ClusterMap)
    → lookup k (insert key info m) ≡ (if bytes_eq key k then some info else lookup k m)
unfolding lookup insert
lookup-insert key k info [] = refl
lookup-insert key k info ((j, i) ∷ m) =
    ground
      (arith, bytes_eq_iff j key, bytes_eq_iff key k, bytes_eq_iff j k, lookup-insert key k info m)
