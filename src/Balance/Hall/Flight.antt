-- ===== src/Balance/Hall/Flight.antt =====
-- The messages that are on their way, in the order in which each has got where it is.
use sim_tools.Base.{
  ℕ, ◌≤◌, ◌≡◌, refl, ap, sym, ◌∙◌, subst, true, false, Bool, List, [], ◌∷◌, ◌++◌, if◌then◌else◌,
  ◌==◌, length, length-append, All, append_assoc, append-nil, arith,
}
use sim_tools.Base.Bytes.{Bytes}
use sim_tools.Core.Text.{string_to_zmq_msg}
use sim_tools.Core.Doubles.{Doubles}
use sim_tools.Cluster.Config.{worker_name}
use sim_tools.Balance.Broker.{worker_alive}
use sim_tools.Balance.Tasks.{encode_task, encode_result}
use sim_tools.Balance.Worker.{sum_task}
use sim_tools.Balance.Client.{gen_task}
use sim_tools.Balance.Hall.{customer_name}
use sim_tools.Balance.Dispatching.{Word, signal, answer, Wish, Act, returned, assigned}

-- Where a client's task or its result is: in what the client has sent, at the broker, on the way to
-- a worker, given to it, sent by it, at the broker again, on the way back, or with the client.
pub data Place : Type 0 where
  out front : Place
  dealt job said heard : (worker : ℕ) → Place
  back home : Place

-- A client's task or result, with the numbers drawn; a worker's alive signal, with whether the
-- broker has got it; or what has been read.
pub data Item : Type 0 where
  parcel : (client : ℕ) (draw : ℕ → ℕ) (place : Place) → Item
  alive : (worker : ℕ) (arrived : Bool) → Item
  spent : Item

-- One after the other, what each item is worth.
abbrev pub collect {ℓ} : {A : Type ℓ} → (Item → List A) → List Item → List A
collect g [] = []
collect g (it ∷ f) = g it ++ collect g f

module _ {ℓ} {A : Type ℓ} (g : Item → List A) where
  abbrev pub Nothing : Item → Type ℓ
  Nothing it = g it ≡ []

  pub collect-append : (xs ys : List Item) → collect g (xs ++ ys) ≡ collect g xs ++ collect g ys
  collect-append [] ys = refl
  collect-append (it ∷ xs) ys =
      ap (◌++◌ (g it)) (collect-append xs ys)
      ∙ sym (append_assoc (g it) (collect g xs) (collect g ys))

  pub collect-nil : (xs : List Item) → All Nothing xs → collect g xs ≡ []
  collect-nil [] h = refl
  collect-nil (it ∷ xs) h = rw (h.0, collect-nil xs h.1) refl

  -- The first item that is worth something.
  pub record First (f : List Item) : Type ℓ where
    pub before : List Item
    pub found : Item
    pub after : List Item
    pub here : f ≡ before ++ found ∷ after
    pub none_before : All Nothing before

  -- The same with what the item is.
  pub record Placed (f : List Item) (it : Item) : Type ℓ where
    pub before : List Item
    pub after : List Item
    pub here : f ≡ before ++ it ∷ after
    pub none_before : All Nothing before

  pub placed : {f : List Item} {it : Item} (k : First f) → k.found ≡ it → Placed f it
  placed k same = record {
    before = k.before;
    after = k.after;
    here = k.here ∙ ap (λ (x : Item). k.before ++ x ∷ k.after) same;
    none_before = k.none_before;
  }

  Starts : List Item → Type ℓ
  Starts f = (k : First f) × (b : A) × (bs : List A) × (g k.found ≡ b ∷ bs)

  collect-First_cons :
      (it : Item) (f : List Item) (a : A) (rest v : List A)
      → g it ≡ v
      → v ++ collect g f ≡ a ∷ rest
      → (collect g f ≡ a ∷ rest → Starts f)
      → Starts (it ∷ f)
  unfolding Starts
  collect-First_cons it f a rest (b ∷ bs) e h later =
      (record { before = []; found = it; after = f; here = refl; none_before = tt }, b, bs, e)
  collect-First_cons it f a rest [] e h later =
      let (k, b, bs, worth) = later h in
      (
        record {
          before = it ∷ k.before;
          found = k.found;
          after = k.after;
          here = ap (◌∷◌ it) k.here;
          none_before = (e, k.none_before);
        },
        b,
        bs,
        worth,
      )

  pub collect-First :
      (f : List Item) (a : A) (rest : List A)
      → collect g f ≡ a ∷ rest
      → (k : First f) × (b : A) × (bs : List A) × (g k.found ≡ b ∷ bs)
  unfolding Starts
  collect-First [] a rest h = absurd (cc)
  collect-First (it ∷ f) a rest h =
      collect-First_cons it f a rest (g it) refl h (collect-First f a rest)

rotated {ℓ} :
    {A : Type ℓ} (a b c : List A) → length (a ++ (b ++ c)) ≤ 1 → (a ++ c) ++ b ≡ a ++ (b ++ c)
rotated a [] c one = append-nil (a ++ c)
rotated [] (x ∷ []) [] one = refl
rotated [] (x ∷ []) (y ∷ c) one = absurd (omega arith)
rotated [] (x ∷ z ∷ b) c one = absurd (omega arith)
rotated (y ∷ a) (x ∷ b) c one = absurd (omega (arith, length-append a (x ∷ b ++ c)))

module _ (xs ys : List Item) (it to : Item) where
  -- An item at a new place.
  abbrev pub landed : List Item
  landed = (xs ++ ys) ++ to ∷ []

  module _ {ℓ} {A : Type ℓ} (g : Item → List A) where
    -- Where it neither was nor comes to.
    pub kept : g it ≡ [] → g to ≡ [] → collect g landed ≡ collect g (xs ++ it ∷ ys)
    kept no_more not_yet =
        rw
          (
            collect-append g (xs ++ ys) (to ∷ []),
            collect-append g xs ys,
            collect-append g xs (it ∷ ys),
            no_more,
            not_yet,
          )
          (append-nil _)

    -- Where it comes to.
    pub gained :
        {v : List A} → g it ≡ [] → g to ≡ v → collect g landed ≡ collect g (xs ++ it ∷ ys) ++ v
    gained {v = v} no_more now =
        rw
          (
            collect-append g (xs ++ ys) (to ∷ []),
            collect-append g xs ys,
            collect-append g xs (it ∷ ys),
            no_more,
            now,
          )
          (ap (◌++◌ (collect g xs ++ collect g ys)) (append-nil v))

    -- Where it was the first.
    pub taken :
        {v : List A}
        → All (Nothing g) xs
        → g it ≡ v
        → g to ≡ []
        → collect g (xs ++ it ∷ ys) ≡ v ++ collect g landed
    taken {v = v} none now not_yet =
        rw
          (
            collect-append g (xs ++ ys) (to ∷ []),
            collect-append g xs ys,
            collect-append g xs (it ∷ ys),
            collect-nil g xs none,
            now,
            not_yet,
          )
          (ap (◌++◌ v) (sym (append-nil (collect g ys))))

    -- What there is one of at most stays, wherever it is.
    pub single_kept :
        length (collect g (xs ++ it ∷ ys)) ≤ 1
        → g it ≡ g to
        → collect g landed ≡ collect g (xs ++ it ∷ ys)
    single_kept one same =
        rw
          (
            collect-append g (xs ++ ys) (to ∷ []),
            collect-append g xs ys,
            collect-append g xs (it ∷ ys),
            ← same,
            append-nil (g it),
          )
          (rotated (collect g xs) (g it) (collect g ys)
            (subst (λ (l : List A). length l ≤ 1) (collect-append g xs (it ∷ ys)) one))

-- What the broker reads, does, and has still to hand on.
module _ (D : Doubles) where
  abbrev pub task_frame : (ℕ → ℕ) → Bytes
  task_frame d = encode_task D (gen_task D d)

  abbrev pub result_frame : (ℕ → ℕ) → Bytes
  result_frame d = encode_result D (sum_task D (gen_task D d))

  unfoldable pub word_of : Item → List Word
  word_of (parcel i d (heard j)) = answer (worker_name j) (customer_name i) (result_frame d) ∷ []
  word_of (alive j true) = signal (worker_name j) ∷ []
  word_of _ = []

  unfoldable pub wish_of : Item → List Wish
  wish_of (parcel i d front) = record { client = customer_name i; task = task_frame d } ∷ []
  wish_of _ = []

  unfoldable pub act_of : Item → List Act
  act_of (parcel i d (dealt j)) = assigned (worker_name j) (customer_name i) (task_frame d) ∷ []
  act_of (parcel i d back) = returned (customer_name i) (result_frame d) ∷ []
  act_of _ = []

  -- What worker j reads and has sent, and what client i has sent and reads.
  unfoldable pub jobs_of : ℕ → Item → List Bytes
  jobs_of k (parcel i d (job j)) =
      if k == j then string_to_zmq_msg (customer_name i) ∷ task_frame d ∷ [] else []
  jobs_of k _ = []

  unfoldable pub said_of : ℕ → Item → List (List Bytes)
  said_of k (parcel i d (said j)) =
      if k == j then (string_to_zmq_msg (customer_name i) ∷ result_frame d ∷ []) ∷ [] else []
  said_of k (alive j false) = if k == j then (string_to_zmq_msg worker_alive ∷ []) ∷ [] else []
  said_of k _ = []

  unfoldable pub sent_of : ℕ → Item → List Bytes
  sent_of k (parcel i d out) = if k == i then task_frame d ∷ [] else []
  sent_of k _ = []

  unfoldable pub got_of : ℕ → Item → List Bytes
  got_of k (parcel i d home) = if k == i then result_frame d ∷ [] else []
  got_of k _ = []

-- The numbers drawn for what is on its way for client k.
unfoldable pub due_of : ℕ → Item → List (ℕ → ℕ)
due_of k (parcel i d p) = if k == i then d ∷ [] else []
due_of k _ = []
