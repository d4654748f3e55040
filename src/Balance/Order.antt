-- ===== src/Balance/Order.antt =====
-- The order that the steps of the balancing broker keep.
use sim_tools.Base.{◌≡◌, refl, ap, ◌∙◌, List, [], ◌∷◌, ◌++◌, append-nil, append_assoc}
use sim_tools.Base.Bytes.{Bytes}
use sim_tools.Balance.Dispatching.{
  Word, signal, answer, Wish, Act, returned, assigned, State, ◌⟶◌, wake, relay, assign, ◌⟶*◌, stop,
  go,
}

-- The workers that have been given tasks, and the workers that are still to be heard.
unfoldable pub employed : List Act → List Bytes
employed [] = []
employed (returned c r ∷ acts) = employed acts
employed (assigned w c t ∷ acts) = w ∷ employed acts

unfoldable pub heard : List Word → List Bytes
heard [] = []
heard (signal w ∷ words) = w ∷ heard words
heard (answer w c r ∷ words) = w ∷ heard words

-- The tasks that have been given to workers.
unfoldable pub served : List Act → List Wish
served [] = []
served (returned c r ∷ acts) = served acts
served (assigned w c t ∷ acts) = record { client = c; task = t } ∷ served acts

-- The results that have gone to clients, and those that are still to be read.
pub record Result : Type 0 where
  pub client : Bytes
  pub result : Bytes

unfoldable pub delivered : List Act → List Result
delivered [] = []
delivered (returned c r ∷ acts) = record { client = c; result = r } ∷ delivered acts
delivered (assigned w c t ∷ acts) = delivered acts

unfoldable pub pending : List Word → List Result
pending [] = []
pending (signal w ∷ words) = pending words
pending (answer w c r ∷ words) = record { client = c; result = r } ∷ pending words

delivered-append : (a b : List Act) → delivered (a ++ b) ≡ delivered a ++ delivered b
unfolding delivered
delivered-append [] b = refl
delivered-append (returned c r ∷ a) b =
    ap (◌∷◌ (record { client = c; result = r })) (delivered-append a b)
delivered-append (assigned w c t ∷ a) b = delivered-append a b

employed-append : (a b : List Act) → employed (a ++ b) ≡ employed a ++ employed b
unfolding employed
employed-append [] b = refl
employed-append (returned c r ∷ a) b = employed-append a b
employed-append (assigned w c t ∷ a) b = ap (◌∷◌ w) (employed-append a b)

served-append : (a b : List Act) → served (a ++ b) ≡ served a ++ served b
unfolding served
served-append [] b = refl
served-append (returned c r ∷ a) b = served-append a b
served-append (assigned w c t ∷ a) b =
    ap (◌∷◌ (record { client = c; task = t })) (served-append a b)

-- The workers in the order of their turns: those that had one, those that wait, those to come.
abbrev pub turns : State → List Bytes
turns s = employed s.acts ++ (s.queue ++ heard s.words)

-- The tasks in the order of their service.
abbrev pub tasks : State → List Wish
tasks s = served s.acts ++ s.wishes

step-turns : {s t : State} → s ⟶ t → turns s ≡ turns t
unfolding employed heard
step-turns (wake {q} {w} {words}) = simp append_assoc refl
step-turns (relay {q} {w} {c} {r} {words} {wishes} {acts}) =
    simp (append_assoc, employed-append, append-nil) refl
step-turns (assign {q} {w} {words} {wish} {wishes} {acts}) =
    simp (append_assoc, employed-append) refl

step-tasks : {s t : State} → s ⟶ t → tasks s ≡ tasks t
unfolding served
step-tasks wake = refl
step-tasks (relay {q} {w} {c} {r} {words} {wishes} {acts}) = simp (served-append, append-nil) refl
step-tasks (assign {q} {w} {words} {wish} {wishes} {acts}) = simp (append_assoc, served-append) refl

abbrev pub results : State → List Result
results s = delivered s.acts ++ pending s.words

step-results : {s t : State} → s ⟶ t → results s ≡ results t
unfolding delivered pending
step-results wake = refl
step-results (relay {q} {w} {c} {r} {words} {wishes} {acts}) =
    simp (append_assoc, delivered-append) refl
step-results (assign {q} {w} {words} {wish} {wishes} {acts}) =
    simp (delivered-append, append-nil) refl

-- Workers take their turns in the order in which they were heard, tasks are handed over in the order
-- in which they came, and every result that comes goes to its client, in this order too.
pub steps-order :
    {s t : State} → s ⟶* t → (turns s ≡ turns t) × (tasks s ≡ tasks t) × (results s ≡ results t)
steps-order stop = (refl, refl, refl)
steps-order (go x l) =
    let rest = steps-order l in
    (step-turns x ∙ rest.0, step-tasks x ∙ rest.1, step-results x ∙ rest.2)
