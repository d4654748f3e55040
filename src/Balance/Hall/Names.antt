-- ===== src/Balance/Hall/Names.antt =====
-- The names of main's clients and workers, and who is found by them.
use sim_tools.Base.{
  ℕ, ◌<◌, ◌^◌, ◌≡◌, refl, ap, ◌∙◌, drop, ◌==◌, ==_iff, Bool-cases, inl, inr, true, false, arith,
}
use sim_tools.Base.Bytes.{Bytes, bytes_eq, bytes_eq_iff}
use sim_tools.Core.Text.{string_to_zmq_msg}
use sim_tools.Cluster.Worker.{identity}
use sim_tools.Cluster.Config.{worker_name}
use sim_tools.Cluster.Naming.{to_string-injective, worker_name-injective}
use sim_tools.Balance.Broker.{worker_alive}
use sim_tools.Balance.Hall.{customer_name}
use sim_tools.Floor.Letters.{identity_test}

customer_name-injective :
    (i j : ℕ) → i < 2 ^ 32 → j < 2 ^ 32 → customer_name i ≡ customer_name j → i ≡ j
unfolding customer_name
customer_name-injective i j hi hj e =
    to_string-injective i j (omega arith) (omega arith) (ap (drop 5) e)

-- No client is called like the signal.
pub customer_name-other : (i : ℕ) → bytes_eq (customer_name i) worker_alive ≡ false
unfolding customer_name worker_alive bytes_eq
customer_name-other i = refl

message_test : (x y : Bytes) → bytes_eq (string_to_zmq_msg x) (string_to_zmq_msg y) ≡ bytes_eq x y
unfolding identity string_to_zmq_msg
message_test x y = identity_test x y

module _ (name : ℕ → Bytes) where
  names_test :
      (i j : ℕ)
      → (name i ≡ name j → i ≡ j)
      → bytes_eq (string_to_zmq_msg (name i)) (string_to_zmq_msg (name j)) ≡ (i == j)
  names_test i j injective = message_test (name i) (name j) ∙ elim (Bool-cases (i == j)) [
    | inl same ↦ rw same ((bytes_eq_iff (name i) (name j)).1 (ap name ((==_iff i j).0 same)))
    | inr other ↦ rw other (elim (Bool-cases (bytes_eq (name i) (name j))) [
      | inl found ↦
          (let same : (i == j) ≡ true =
              (==_iff i j).1 (injective ((bytes_eq_iff (name i) (name j)).0 found)) in
            absurd (cc))
      | inr lost ↦ lost
    ])
  ]

pub customers_test :
    (i j : ℕ)
    → i < 2 ^ 32
    → j < 2 ^ 32
    → bytes_eq (string_to_zmq_msg (customer_name i)) (string_to_zmq_msg (customer_name j))
      ≡ (i == j)
customers_test i j hi hj = names_test customer_name i j (customer_name-injective i j hi hj)

pub workers_test :
    (i j : ℕ)
    → i < 2 ^ 32
    → j < 2 ^ 32
    → bytes_eq (string_to_zmq_msg (worker_name i)) (string_to_zmq_msg (worker_name j)) ≡ (i == j)
workers_test i j hi hj =
    names_test worker_name i j (worker_name-injective i j (omega arith) (omega arith))
