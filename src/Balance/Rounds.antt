-- ===== src/Balance/Rounds.antt =====
-- A round of BalanceBroker::serve against the steps of its promise.
use sim_tools.Base.{
  ℕ, ◌+◌, ◌<◌, arith, ◌≡◌, refl, ap, ◌⊎◌, inl, inr, Bool, true, false, List, [], ◌∷◌, ◌++◌, map,
  All, length, le→leb,
}
use sim_tools.Base.Bytes.{Bytes, bytes_eq, bytes_eq_iff}
use sim_tools.Base.Outcome.{Outcome, done, blocked}
use sim_tools.Core.Text.{string_to_zmq_msg}
use sim_tools.Core.Names.{zmq_msg-roundtrip}
use sim_tools.Balance.Broker.{
  BalanceBroker, worker_alive, sizeof_task, take_reply, take_task, hand_over, take_task_if,
  after_reply, front_polled, balance_with, balance_round,
}
use sim_tools.Balance.Dispatching.{
  Word, signal, answer, Wish, Act, returned, assigned, State, wake, relay, assign, ◌⟶◌, ◌⟶*◌, stop,
  go, broker_at, posted, IsProper, IsWord, IsWish,
}

map-append : (a : List Act) (x : Act) → map posted a ++ posted x ∷ [] ≡ map posted (a ++ x ∷ [])
map-append [] x = refl
map-append (y ∷ a) x = ap (◌∷◌ (posted y)) (map-append a x)

abbrev pub state : List Bytes → List Word → List Wish → List Act → State
state q words wishes acts = record { queue = q; words = words; wishes = wishes; acts = acts }

-- An alive signal marks the worker as ready and ends the round.
take_reply-signal :
    (q : List Bytes) (w : Bytes) (words : List Word) (wishes : List Wish) (acts : List Act)
    → take_reply (broker_at (state q (signal w ∷ words) wishes acts))
      ≡ done (broker_at (state (q ++ w ∷ []) words wishes acts), true)
unfolding take_reply
take_reply-signal q w words wishes acts =
    rw
      (
        zmq_msg-roundtrip w,
        zmq_msg-roundtrip worker_alive,
        (bytes_eq_iff worker_alive worker_alive).1 refl,
      )
      refl

-- An answer marks the worker as ready and goes to the client.
pub take_reply-answer :
    (q : List Bytes) (w c r : Bytes) (words : List Word) (wishes : List Wish) (acts : List Act)
    → bytes_eq c worker_alive ≡ false
    → take_reply (broker_at (state q (answer w c r ∷ words) wishes acts))
      ≡ done (broker_at (state (q ++ w ∷ []) words wishes (acts ++ returned c r ∷ [])), false)
unfolding take_reply
take_reply-answer q w c r words wishes acts h =
    rw (zmq_msg-roundtrip w, zmq_msg-roundtrip c, h, map-append acts (returned c r)) refl

-- While a worker is ready, the first task goes to the first of them.
pub take_task-assign :
    (w : Bytes) (q : List Bytes) (words : List Word) (wish : Wish) (wishes : List Wish)
    (acts : List Act)
    → IsWish wish
    → take_task (broker_at (state (w ∷ q) words (wish ∷ wishes) acts))
      ≡ done (broker_at (state q words wishes (acts ++ assigned w wish.client wish.task ∷ [])))
unfolding take_task hand_over
take_task-assign w q words wish wishes acts h =
    rw
      (
        zmq_msg-roundtrip wish.client,
        le→leb (length wish.task) sizeof_task h,
        map-append acts (assigned w wish.client wish.task),
      )
      refl

-- Nothing can be done: no worker has spoken, and no worker is ready or no task is there.
abbrev pub IsWaiting : State → Type 0
IsWaiting s = (s.words ≡ []) × ((s.queue ≡ []) ⊎ (s.wishes ≡ []))

-- How many messages are still to be read.
abbrev pub unread : State → ℕ
unread s = length s.words + length s.wishes

-- One step of what the broker promises, or two.
abbrev pub OneOrTwo : State → State → Type 0
OneOrTwo s t = (s ⟶ t) ⊎ ((u : State) × (s ⟶ u) × (u ⟶ t))

pub as_steps : {s t : State} → OneOrTwo s t → s ⟶* t
as_steps (inl x) = go x stop
as_steps (inr (u, x, y)) = go x (go y stop)

-- The broker takes at least one message, in one or two steps of what it promises.
pub record Moves (r : Outcome BalanceBroker) (s : State) : Type 0 where
  pub next : State
  pub returns : r ≡ done (broker_at next)
  pub steps : OneOrTwo s next
  pub proper : IsProper next
  pub fewer : unread next < unread s

-- `hears` and `silent` are what zmq::poll documents: a socket is readable if a message waits at it.
module _ (pollin : List Bytes → Bool)
    (hears : (f : Bytes) (fs : List Bytes) → pollin (f ∷ fs) ≡ true)
    (silent : pollin [] ≡ false) where
  round_quiet :
      (q : List Bytes) (wishes : List Wish) (acts : List Act)
      → All IsWish wishes
      → ((balance_round pollin (broker_at (state q [] wishes acts)) ≡ blocked)
          × IsWaiting (state q [] wishes acts))
        ⊎ Moves (balance_round pollin (broker_at (state q [] wishes acts))) (state q [] wishes acts)
  unfolding balance_round balance_with front_polled
  round_quiet [] wishes acts ok = inl (rw silent refl, (refl, inl refl))
  round_quiet (w ∷ q) [] acts ok = inl (rw silent refl, (refl, inr refl))
  round_quiet (w ∷ q) (wish ∷ wishes) acts ok = inr (record {
    next = state q [] wishes (acts ++ assigned w wish.client wish.task ∷ []);
    returns =
        rw (silent, hears (string_to_zmq_msg wish.client) _)
          (take_task-assign w q [] wish wishes acts ok.0);
    steps = inl assign;
    proper = record { words_ok = tt; wishes_ok = ok.1 };
    fewer = omega arith;
  })

  round_signal :
      (q : List Bytes) (w : Bytes) (words : List Word) (wishes : List Wish) (acts : List Act)
      → All IsWord words
      → All IsWish wishes
      → Moves
          (balance_round pollin (broker_at (state q (signal w ∷ words) wishes acts)))
          (state q (signal w ∷ words) wishes acts)
  unfolding balance_round balance_with after_reply
  round_signal q w words wishes acts words_ok ok = record {
    next = state (q ++ w ∷ []) words wishes acts;
    returns = rw (hears (string_to_zmq_msg w) _, take_reply-signal q w words wishes acts) refl;
    steps = inl wake;
    proper = record { words_ok = words_ok; wishes_ok = ok };
    fewer = omega arith;
  }

  -- An answer is followed by a task in the same round if a worker was ready before it.
  round_answer :
      (q : List Bytes) (w c r : Bytes) (words : List Word) (wishes : List Wish) (acts : List Act)
      → bytes_eq c worker_alive ≡ false
      → All IsWord words
      → All IsWish wishes
      → Moves
          (balance_round pollin (broker_at (state q (answer w c r ∷ words) wishes acts)))
          (state q (answer w c r ∷ words) wishes acts)
  unfolding balance_round balance_with after_reply front_polled take_task_if
  round_answer [] w c r words wishes acts other words_ok ok = record {
    next = state (w ∷ []) words wishes (acts ++ returned c r ∷ []);
    returns =
        rw (hears (string_to_zmq_msg w) _, take_reply-answer [] w c r words wishes acts other) refl;
    steps = inl relay;
    proper = record { words_ok = words_ok; wishes_ok = ok };
    fewer = omega arith;
  }
  round_answer (v ∷ q) w c r words [] acts other words_ok ok = record {
    next = state (v ∷ q ++ w ∷ []) words [] (acts ++ returned c r ∷ []);
    returns =
        rw
          (
            hears (string_to_zmq_msg w) _,
            silent,
            take_reply-answer (v ∷ q) w c r words [] acts other,
          )
          refl;
    steps = inl relay;
    proper = record { words_ok = words_ok; wishes_ok = ok };
    fewer = omega arith;
  }
  round_answer (v ∷ q) w c r words (wish ∷ wishes) acts other words_ok ok =
      let acts1 = acts ++ returned c r ∷ [] in
      record {
        next = state (q ++ w ∷ []) words wishes (acts1 ++ assigned v wish.client wish.task ∷ []);
        returns =
            rw
              (
                hears (string_to_zmq_msg w) _,
                hears (string_to_zmq_msg wish.client) _,
                take_reply-answer (v ∷ q) w c r words (wish ∷ wishes) acts other,
              )
              (take_task-assign v (q ++ w ∷ []) words wish wishes acts1 ok.0);
        steps = inr (_, relay, assign);
        proper = record { words_ok = words_ok; wishes_ok = ok.1 };
        fewer = omega arith;
      }

  round_by_words :
      (q : List Bytes) (words : List Word) (wishes : List Wish) (acts : List Act)
      → All IsWord words
      → All IsWish wishes
      → ((balance_round pollin (broker_at (state q words wishes acts)) ≡ blocked)
          × IsWaiting (state q words wishes acts))
        ⊎ Moves
            (balance_round pollin (broker_at (state q words wishes acts)))
            (state q words wishes acts)
  round_by_words q [] wishes acts words_ok ok = round_quiet q wishes acts ok
  round_by_words q (signal w ∷ words) wishes acts words_ok ok =
      inr (round_signal q w words wishes acts words_ok.1 ok)
  round_by_words q (answer w c r ∷ words) wishes acts words_ok ok =
      inr (round_answer q w c r words wishes acts words_ok.0 words_ok.1 ok)

  -- From any state whose words and wishes have the form that workers and clients send, a round waits
  -- exactly where nothing can be done, and otherwise makes one step of the promised queue or two, and
  -- leaves fewer messages unread. In no case does it fault: the queue is not empty where its first
  -- worker is read.
  pub balance_round-Moves :
      (s : State)
      → IsProper s
      → ((balance_round pollin (broker_at s) ≡ blocked) × IsWaiting s)
        ⊎ Moves (balance_round pollin (broker_at s)) s
  balance_round-Moves s ok = round_by_words s.queue s.words s.wishes s.acts ok.words_ok ok.wishes_ok
