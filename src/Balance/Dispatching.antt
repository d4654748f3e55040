-- ===== src/Balance/Dispatching.antt =====
-- What the balancing broker promises: the steps of its queue.
use sim_tools.Base.{◌≤◌, ◌≡◌, false, List, [], ◌∷◌, ◌++◌, length, map, All}
use sim_tools.Base.Bytes.{Bytes, bytes_eq}
use sim_tools.Core.Text.{string_to_zmq_msg}
use sim_tools.Balance.Broker.{
  BalanceBroker, Posted, to_client, to_worker, worker_alive, sizeof_task,
}

-- What a worker sends.
pub data Word : Type 0 where
  signal : (worker : Bytes) → Word
  answer : (worker client result : Bytes) → Word

-- What a client sends.
pub record Wish : Type 0 where
  pub client : Bytes
  pub task : Bytes

abbrev pub IsWord : Word → Type 0
IsWord (signal w) = Unit {0}
IsWord (answer w c r) = bytes_eq c worker_alive ≡ false

abbrev pub IsWish : Wish → Type 0
IsWish w = length w.task ≤ sizeof_task

pub data Act : Type 0 where
  returned : (client result : Bytes) → Act
  assigned : (worker client task : Bytes) → Act

-- The ready workers, what is still to be read, and what has been done.
pub record State : Type 0 where
  pub queue : List Bytes
  pub words : List Word
  pub wishes : List Wish
  pub acts : List Act

infix 40 ◌⟶◌
pub data ◌⟶◌ : State → State → Type 0 where
  wake :
      {q : List Bytes} {w : Bytes} {words : List Word} {wishes : List Wish} {acts : List Act}
      → record { queue = q; words = signal w ∷ words; wishes = wishes; acts = acts }
        ⟶ record { queue = q ++ w ∷ []; words = words; wishes = wishes; acts = acts }
  relay :
      {q : List Bytes} {w c r : Bytes} {words : List Word} {wishes : List Wish} {acts : List Act}
      → record { queue = q; words = answer w c r ∷ words; wishes = wishes; acts = acts } ⟶ record {
        queue = q ++ w ∷ [];
        words = words;
        wishes = wishes;
        acts = acts ++ returned c r ∷ [];
      }
  assign :
      {q : List Bytes} {w : Bytes} {words : List Word} {wish : Wish} {wishes : List Wish}
      {acts : List Act}
      → record { queue = w ∷ q; words = words; wishes = wish ∷ wishes; acts = acts } ⟶ record {
        queue = q;
        words = words;
        wishes = wishes;
        acts = acts ++ assigned w wish.client wish.task ∷ [];
      }

infix 40 ◌⟶*◌
pub data ◌⟶*◌ : State → State → Type 0 where
  stop : {s : State} → s ⟶* s
  go : {s t u : State} → s ⟶ t → t ⟶* u → s ⟶* u

pub joined : {s t u : State} → s ⟶* t → t ⟶* u → s ⟶* u
joined stop r = r
joined (go x l) r = go x (joined l r)

-- The frames of a word, of a wish and of an act.
abbrev pub word_frames : Word → List Bytes
word_frames (signal w) = string_to_zmq_msg w ∷ string_to_zmq_msg worker_alive ∷ []
word_frames (answer w c r) = string_to_zmq_msg w ∷ string_to_zmq_msg c ∷ r ∷ []

abbrev pub words_frames : List Word → List Bytes
words_frames [] = []
words_frames (w ∷ ws) = word_frames w ++ words_frames ws

abbrev pub wishes_frames : List Wish → List Bytes
wishes_frames [] = []
wishes_frames (w ∷ ws) = string_to_zmq_msg w.client ∷ w.task ∷ wishes_frames ws

abbrev pub posted : Act → Posted
posted (returned c r) = to_client (string_to_zmq_msg c ∷ r ∷ [])
posted (assigned w c t) = to_worker (string_to_zmq_msg w ∷ string_to_zmq_msg c ∷ t ∷ [])

-- The broker that stands at a state.
abbrev pub broker_at : State → BalanceBroker
broker_at s = record {
  ready = s.queue;
  back_input = words_frames s.words;
  front_input = wishes_frames s.wishes;
  log = map posted s.acts;
}

pub record IsProper (s : State) : Type 0 where
  pub words_ok : All IsWord s.words
  pub wishes_ok : All IsWish s.wishes
