-- ===== src/Tests/Balance.antt =====
-- The balancing broker at concrete inputs.
use sim_tools.Base.{◌≡◌, refl, ◌⊎◌, Bool, true, false, List, [], ◌∷◌, arith}
use sim_tools.Base.Bytes.{Bytes, bytes_eq}
use sim_tools.Base.Outcome.{done, blocked}
use sim_tools.Balance.Broker.{balance_round, balance_serve, worker_alive}
use sim_tools.Balance.Dispatching.{signal, answer, State, broker_at, IsProper}
use sim_tools.Balance.Order.{turns, tasks, results}
use sim_tools.Balance.Rounds.{IsWaiting, Moves, balance_round-Moves}
use sim_tools.Balance.Waiting.{Waits, balance_serve-Waits, balance_serve-order}

-- zmq::poll, as a test for a frame.
waits : List Bytes → Bool
waits [] = false
waits (f ∷ fs) = true

waits_some : (f : Bytes) (fs : List Bytes) → waits (f ∷ fs) ≡ true
unfolding waits
waits_some f fs = refl

waits_none : waits [] ≡ false
unfolding waits
waits_none = refl

-- Two workers: one has just started, one answers a client. Two clients have sent tasks.
abbrev busy : State
busy = record {
  queue = [];
  words = signal (65 ∷ []) ∷ answer (66 ∷ []) (99 ∷ []) (7 ∷ []) ∷ [];
  wishes =
      record { client = 99 ∷ []; task = 1 ∷ [] } ∷ record { client = 100 ∷ []; task = 2 ∷ [] } ∷ [];
  acts = [];
}

busy-IsProper : IsProper busy
unfolding bytes_eq worker_alive
busy-IsProper = record { words_ok = (tt, (refl, tt)); wishes_ok = (omega arith, (omega arith, tt)) }

balance_round-Moves_example :
    ((balance_round waits (broker_at busy) ≡ blocked) × IsWaiting busy)
    ⊎ Moves (balance_round waits (broker_at busy)) busy
balance_round-Moves_example = balance_round-Moves waits waits_some waits_none busy busy-IsProper

balance_serve-Waits_example : Waits waits 4 busy
balance_serve-Waits_example =
    balance_serve-Waits waits waits_some waits_none 4 busy busy-IsProper (omega arith)

balance_serve-order_example :
    (t : State) × (balance_serve waits 4 (broker_at busy) ≡ done (broker_at t))
    × IsWaiting t
    × (turns busy ≡ turns t)
    × (tasks busy ≡ tasks t)
    × (results busy ≡ results t)
balance_serve-order_example =
    balance_serve-order waits waits_some waits_none 4 busy busy-IsProper (omega arith)
