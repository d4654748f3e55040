-- ===== src/Balance/Hall/Rounds.antt =====
-- The broker's rounds, in a hall that is running.
use sim_tools.Base.{
  ℕ, ◌<◌, ◌≡◌, refl, sym, ap, ◌∙◌, subst, true, inl, inr, List, [], ◌∷◌, ◌++◌, All, All-append, map,
}
use sim_tools.Base.Bytes.{Bytes}
use sim_tools.Core.Doubles.{Doubles}
use sim_tools.Cluster.Config.{worker_name}
use sim_tools.Balance.Worker.{BalanceWorker}
use sim_tools.Balance.Dispatching.{
  Word, signal, answer, Wish, Act, returned, assigned, State, ◌⟶◌, wake, relay, assign, ◌⟶*◌, stop,
  go,
}
use sim_tools.Balance.Rounds.{state}
use sim_tools.Balance.Hall.{customer_name, Customer}
use sim_tools.Balance.Hall.Flight.{
  front, dealt, heard, back, Item, parcel, alive, spent, collect, Nothing, collect-First, placed,
  landed, kept, gained, taken, word_of, wish_of, act_of, jobs_of, said_of, sent_of, got_of, due_of,
  task_frame, result_frame,
}
use sim_tools.Balance.Hall.View.{state_of, ShowsWorker, ShowsCustomer, IsItem}
use sim_tools.Balance.Hall.Cases.{word_of_cases, wish_of_cases}
use sim_tools.Balance.Hall.Landing.{All-landed, All-at, ShowsWorker-landed, ShowsCustomer-landed}

state_eq :
    {q q' : List Bytes} {words words' : List Word} {wishes wishes' : List Wish}
    {acts acts' : List Act}
    → q ≡ q'
    → words ≡ words'
    → wishes ≡ wishes'
    → acts ≡ acts'
    → state q words wishes acts ≡ state q' words' wishes' acts'
state_eq a b c d = rw (a, b, c, d) refl

map-last :
    (ready : List ℕ) (j : ℕ)
    → map worker_name ready ++ worker_name j ∷ [] ≡ map worker_name (ready ++ j ∷ [])
map-last [] j = refl
map-last (k ∷ ready) j = ap (◌∷◌ (worker_name k)) (map-last ready j)

module _ (D : Doubles) (n m : ℕ) where
  -- What a step of the broker makes of the messages.
  pub record Flown (f : List Item) (t : State) : Type 0 where
    pub flight : List Item
    pub ready : List ℕ
    pub state_is : t ≡ state_of D flight ready
    pub items_ok : All (IsItem n m) flight
    pub ready_ok : All (λ j. j < n) ready
    pub works : (k : ℕ) (w : BalanceWorker) → ShowsWorker D f k w → ShowsWorker D flight k w
    pub serves : (i : ℕ) (c : Customer D) → ShowsCustomer D f i c → ShowsCustomer D flight i c

  module _ (xs ys : List Item) (ready : List ℕ) (ready_ok : All (λ j. j < n) ready)
      (none : All (Nothing (word_of D)) xs) where
    woken :
        (j : ℕ) (q : List Bytes) (w : Bytes) (words : List Word) (wishes : List Wish)
        (acts : List Act)
        → All (IsItem n m) (xs ++ alive j true ∷ ys)
        → state q (signal w ∷ words) wishes acts ≡ state_of D (xs ++ alive j true ∷ ys) ready
        → Flown (xs ++ alive j true ∷ ys) (state (q ++ w ∷ []) words wishes acts)
    unfolding word_of wish_of act_of jobs_of said_of sent_of got_of due_of
    woken j q w words wishes acts ok e =
        let it = alive j true in
        let read : signal w ∷ words
            ≡ signal (worker_name j) ∷ collect (word_of D) (landed xs ys it spent) =
          ap (λ (s : State). s.words) e ∙ taken xs ys it spent (word_of D) none refl refl in
        let named : w ≡ worker_name j = cc in
        record {
          flight = landed xs ys it spent;
          ready = ready ++ j ∷ [];
          state_is =
              state_eq
                (rw named (ap (λ (s : State). s.queue ++ worker_name j ∷ []) e ∙ map-last ready j))
                (cc)
                (ap (λ (s : State). s.wishes) e ∙ sym (kept xs ys it spent (wish_of D) refl refl))
                (ap (λ (s : State). s.acts) e ∙ sym (kept xs ys it spent (act_of D) refl refl));
          items_ok = All-landed (IsItem n m) xs ys it spent ok tt;
          ready_ok =
              All-append (λ j. j < n) ready (j ∷ []) ready_ok (All-at (IsItem n m) xs ys it ok, tt);
          works = λ k w. ShowsWorker-landed D xs ys it spent k w refl refl refl refl;
          serves = λ i c. ShowsCustomer-landed D xs ys it spent i c refl refl refl refl refl;
        }

    relayed :
        (i : ℕ) (d : ℕ → ℕ) (j : ℕ) (q : List Bytes) (w c r : Bytes) (words : List Word)
        (wishes : List Wish) (acts : List Act)
        → All (IsItem n m) (xs ++ parcel i d (heard j) ∷ ys)
        → state q (answer w c r ∷ words) wishes acts
          ≡ state_of D (xs ++ parcel i d (heard j) ∷ ys) ready
        → Flown
            (xs ++ parcel i d (heard j) ∷ ys)
            (state (q ++ w ∷ []) words wishes (acts ++ returned c r ∷ []))
    unfolding word_of wish_of act_of jobs_of said_of sent_of got_of due_of
    relayed i d j q w c r words wishes acts ok e =
        let it = parcel i d (heard j) in
        let to = parcel i d back in
        let read : answer w c r ∷ words
            ≡ answer (worker_name j) (customer_name i) (result_frame D d)
              ∷ collect (word_of D) (landed xs ys it to) =
          ap (λ (s : State). s.words) e ∙ taken xs ys it to (word_of D) none refl refl in
        let named : w ≡ worker_name j = cc in
        let for_it : c ≡ customer_name i = cc in
        let result : r ≡ result_frame D d = cc in
        let (client_ok, draw_ok, worker_ok) = All-at (IsItem n m) xs ys it ok in
        record {
          flight = landed xs ys it to;
          ready = ready ++ j ∷ [];
          state_is =
              state_eq
                (rw named (ap (λ (s : State). s.queue ++ worker_name j ∷ []) e ∙ map-last ready j))
                (cc) (ap (λ (s : State). s.wishes) e ∙ sym (kept xs ys it to (wish_of D) refl refl))
                (rw (for_it, result)
                  (ap (λ (s : State). s.acts ++ returned (customer_name i) (result_frame D d) ∷ [])
                      e
                    ∙ sym (gained xs ys it to (act_of D) refl refl)));
          items_ok = All-landed (IsItem n m) xs ys it to ok (client_ok, draw_ok, tt);
          ready_ok = All-append (λ j. j < n) ready (j ∷ []) ready_ok (worker_ok, tt);
          works = λ k w. ShowsWorker-landed D xs ys it to k w refl refl refl refl;
          serves = λ i c. ShowsCustomer-landed D xs ys it to i c refl refl refl refl refl;
        }

  assigned_to :
      (xs ys : List Item) (ready : List ℕ) (i : ℕ) (d : ℕ → ℕ) (q : List Bytes) (w : Bytes)
      (words : List Word) (wish : Wish) (wishes : List Wish) (acts : List Act)
      → All (λ j. j < n) ready
      → All (Nothing (wish_of D)) xs
      → All (IsItem n m) (xs ++ parcel i d front ∷ ys)
      → state (w ∷ q) words (wish ∷ wishes) acts ≡ state_of D (xs ++ parcel i d front ∷ ys) ready
      → Flown
          (xs ++ parcel i d front ∷ ys)
          (state q words wishes (acts ++ assigned w wish.client wish.task ∷ []))
  unfolding word_of wish_of act_of jobs_of said_of sent_of got_of due_of
  assigned_to xs ys [] i d q w words wish wishes acts ready_ok none ok e =
      let nobody : w ∷ q ≡ [] = ap (λ (s : State). s.queue) e in absurd (cc)
  assigned_to xs ys (j ∷ ready) i d q w words wish wishes acts ready_ok none ok e =
      let it = parcel i d front in
      let to = parcel i d (dealt j) in
      let asked : Wish = record { client = customer_name i; task = task_frame D d } in
      let read : wish ∷ wishes ≡ asked ∷ collect (wish_of D) (landed xs ys it to) =
        ap (λ (s : State). s.wishes) e ∙ taken xs ys it to (wish_of D) none refl refl in
      let first : w ∷ q ≡ worker_name j ∷ map worker_name ready = ap (λ (s : State). s.queue) e in
      let named : w ≡ worker_name j = cc in
      let same : wish ≡ asked = cc in
      let (client_ok, draw_ok, none_yet) = All-at (IsItem n m) xs ys it ok in
      record {
        flight = landed xs ys it to;
        ready = ready;
        state_is =
            state_eq (cc)
              (ap (λ (s : State). s.words) e ∙ sym (kept xs ys it to (word_of D) refl refl)) (cc)
              (rw (named, same)
                (ap
                    (λ (s : State).
                      s.acts ++ assigned (worker_name j) (customer_name i) (task_frame D d) ∷ [])
                    e
                  ∙ sym (gained xs ys it to (act_of D) refl refl)));
        items_ok = All-landed (IsItem n m) xs ys it to ok (client_ok, draw_ok, ready_ok.0);
        ready_ok = ready_ok.1;
        works = λ k w. ShowsWorker-landed D xs ys it to k w refl refl refl refl;
        serves = λ i c. ShowsCustomer-landed D xs ys it to i c refl refl refl refl refl;
      }

  -- A step of the broker moves one message, or reads a worker's signal.
  Flown-step :
      {s t : State} (f : List Item) (ready : List ℕ)
      → s ⟶ t
      → s ≡ state_of D f ready
      → All (IsItem n m) f
      → All (λ j. j < n) ready
      → Flown f t
  unfolding word_of
  Flown-step f ready (wake {q = q} {w = w} {words = words} {wishes = wishes} {acts = acts}) e ok
        ready_ok =
      let read : signal w ∷ words ≡ collect (word_of D) f = ap (λ (s : State). s.words) e in
      let (k, b, bs, worth) = collect-First (word_of D) f (signal w) words (sym read) in
      elim (word_of_cases D k.found worth) [
        | inl (i, d, j, same) ↦
            (let l = placed (word_of D) k same in
              let other =
                read
                ∙ ap (collect (word_of D)) l.here
                ∙ taken l.before l.after (parcel i d (heard j)) spent (word_of D) l.none_before refl
                    refl in
              absurd (cc))
        | inr (j, same) ↦
            (let l = placed (word_of D) k same in
              subst (λ (x : List Item). Flown x (state (q ++ w ∷ []) words wishes acts))
                (sym l.here)
                (woken l.before l.after ready ready_ok l.none_before j q w words wishes acts
                  (subst (All (IsItem n m)) l.here ok)
                  (e ∙ ap (λ (x : List Item). state_of D x ready) l.here)))
      ]
  Flown-step f ready
        (relay {q = q} {w = w} {c = c} {r = r} {words = words} {wishes = wishes} {acts = acts}) e ok
        ready_ok =
      let read : answer w c r ∷ words ≡ collect (word_of D) f = ap (λ (s : State). s.words) e in
      let (k, b, bs, worth) = collect-First (word_of D) f (answer w c r) words (sym read) in
      elim (word_of_cases D k.found worth) [
        | inl (i, d, j, same) ↦
            (let l = placed (word_of D) k same in
              subst
                (λ (x : List Item).
                  Flown x (state (q ++ w ∷ []) words wishes (acts ++ returned c r ∷ [])))
                (sym l.here)
                (relayed l.before l.after ready ready_ok l.none_before i d j q w c r words wishes
                  acts (subst (All (IsItem n m)) l.here ok)
                  (e ∙ ap (λ (x : List Item). state_of D x ready) l.here)))
        | inr (j, same) ↦
            (let l = placed (word_of D) k same in
              let other =
                read
                ∙ ap (collect (word_of D)) l.here
                ∙ taken l.before l.after (alive j true) spent (word_of D) l.none_before refl refl in
              absurd (cc))
      ]
  Flown-step f ready
        (assign {q = q} {w = w} {words = words} {wish = wish} {wishes = wishes} {acts = acts}) e ok
        ready_ok =
      let read : wish ∷ wishes ≡ collect (wish_of D) f = ap (λ (s : State). s.wishes) e in
      let (k, b, bs, worth) = collect-First (wish_of D) f wish wishes (sym read) in
      let (i, d, same) = wish_of_cases D k.found worth in
      let l = placed (wish_of D) k same in
      subst
        (λ (x : List Item).
          Flown x (state q words wishes (acts ++ assigned w wish.client wish.task ∷ [])))
        (sym l.here)
        (assigned_to l.before l.after ready i d q w words wish wishes acts ready_ok l.none_before
          (subst (All (IsItem n m)) l.here ok)
          (e ∙ ap (λ (x : List Item). state_of D x ready) l.here))

  -- So do several steps.
  pub All-Flown :
      {s t : State} (f : List Item) (ready : List ℕ)
      → s ⟶* t
      → s ≡ state_of D f ready
      → All (IsItem n m) f
      → All (λ j. j < n) ready
      → Flown f t
  All-Flown f ready stop e ok ready_ok = record {
    flight = f;
    ready = ready;
    state_is = e;
    items_ok = ok;
    ready_ok = ready_ok;
    works = λ k w s. s;
    serves = λ i c s. s;
  }
  All-Flown f ready (go step more) e ok ready_ok =
      let first = Flown-step f ready step e ok ready_ok in
      let rest =
        All-Flown first.flight first.ready more first.state_is first.items_ok first.ready_ok in
      record {
        flight = rest.flight;
        ready = rest.ready;
        state_is = rest.state_is;
        items_ok = rest.items_ok;
        ready_ok = rest.ready_ok;
        works = λ k w s. rest.works k w (first.works k w s);
        serves = λ i c s. rest.serves i c (first.serves i c s);
      }
