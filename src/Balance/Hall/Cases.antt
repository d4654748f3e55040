-- ===== src/Balance/Hall/Cases.antt =====
-- What an item is that is worth something somewhere.
use sim_tools.Base.{
  ℕ, ◌≡◌, refl, true, false, ◌⊎◌, inl, inr, List, [], ◌∷◌, ◌==◌, ==_iff, if◌then◌else◌, Bool,
}
use sim_tools.Base.Bytes.{Bytes}
use sim_tools.Core.Doubles.{Doubles}
use sim_tools.Balance.Dispatching.{Word, Wish, Act}
use sim_tools.Balance.Hall.Flight.{
  out, front, dealt, job, said, heard, back, home, Item, parcel, alive, spent, word_of, wish_of,
  act_of, jobs_of, said_of, sent_of, got_of,
}

-- A number that another is tested for, where the test decides between something and nothing.
module _ {ℓ} {A : Type ℓ} where
  picked : (t : Bool) (u : List A) {b : A} {bs : List A} → (if t then u else []) ≡ b ∷ bs → t ≡ true
  picked true u e = refl
  picked false u e = absurd (cc)

  chosen :
      (k j : ℕ) (u : List A) {b : A} {bs : List A} → (if k == j then u else []) ≡ b ∷ bs → k ≡ j
  chosen k j u e = (==_iff k j).0 (picked (k == j) u e)

module _ (D : Doubles) where
  pub word_of_cases :
      (it : Item) {b : Word} {bs : List Word}
      → word_of D it ≡ b ∷ bs
      → ((i : ℕ) × (d : ℕ → ℕ) × (j : ℕ) × (it ≡ parcel i d (heard j)))
        ⊎ ((j : ℕ) × (it ≡ alive j true))
  unfolding word_of
  word_of_cases (parcel i d out) e = absurd (cc)
  word_of_cases (parcel i d front) e = absurd (cc)
  word_of_cases (parcel i d (dealt j)) e = absurd (cc)
  word_of_cases (parcel i d (job j)) e = absurd (cc)
  word_of_cases (parcel i d (said j)) e = absurd (cc)
  word_of_cases (parcel i d (heard j)) e = inl (i, d, j, refl)
  word_of_cases (parcel i d back) e = absurd (cc)
  word_of_cases (parcel i d home) e = absurd (cc)
  word_of_cases (alive j true) e = inr (j, refl)
  word_of_cases (alive j false) e = absurd (cc)
  word_of_cases spent e = absurd (cc)

  pub wish_of_cases :
      (it : Item) {b : Wish} {bs : List Wish}
      → wish_of D it ≡ b ∷ bs
      → (i : ℕ) × (d : ℕ → ℕ) × (it ≡ parcel i d front)
  unfolding wish_of
  wish_of_cases (parcel i d out) e = absurd (cc)
  wish_of_cases (parcel i d front) e = (i, d, refl)
  wish_of_cases (parcel i d (dealt j)) e = absurd (cc)
  wish_of_cases (parcel i d (job j)) e = absurd (cc)
  wish_of_cases (parcel i d (said j)) e = absurd (cc)
  wish_of_cases (parcel i d (heard j)) e = absurd (cc)
  wish_of_cases (parcel i d back) e = absurd (cc)
  wish_of_cases (parcel i d home) e = absurd (cc)
  wish_of_cases (alive j true) e = absurd (cc)
  wish_of_cases (alive j false) e = absurd (cc)
  wish_of_cases spent e = absurd (cc)

  pub act_of_cases :
      (it : Item) {b : Act} {bs : List Act}
      → act_of D it ≡ b ∷ bs
      → ((i : ℕ) × (d : ℕ → ℕ) × (j : ℕ) × (it ≡ parcel i d (dealt j)))
        ⊎ ((i : ℕ) × (d : ℕ → ℕ) × (it ≡ parcel i d back))
  unfolding act_of
  act_of_cases (parcel i d out) e = absurd (cc)
  act_of_cases (parcel i d front) e = absurd (cc)
  act_of_cases (parcel i d (dealt j)) e = inl (i, d, j, refl)
  act_of_cases (parcel i d (job j)) e = absurd (cc)
  act_of_cases (parcel i d (said j)) e = absurd (cc)
  act_of_cases (parcel i d (heard j)) e = absurd (cc)
  act_of_cases (parcel i d back) e = inr (i, d, refl)
  act_of_cases (parcel i d home) e = absurd (cc)
  act_of_cases (alive j true) e = absurd (cc)
  act_of_cases (alive j false) e = absurd (cc)
  act_of_cases spent e = absurd (cc)

  pub jobs_of_cases :
      (k : ℕ) (it : Item) {b : Bytes} {bs : List Bytes}
      → jobs_of D k it ≡ b ∷ bs
      → (i : ℕ) × (d : ℕ → ℕ) × (j : ℕ) × (k ≡ j) × (it ≡ parcel i d (job j))
  unfolding jobs_of
  jobs_of_cases k (parcel i d out) e = absurd (cc)
  jobs_of_cases k (parcel i d front) e = absurd (cc)
  jobs_of_cases k (parcel i d (dealt j)) e = absurd (cc)
  jobs_of_cases k (parcel i d (job j)) e = (i, d, j, chosen k j _ e, refl)
  jobs_of_cases k (parcel i d (said j)) e = absurd (cc)
  jobs_of_cases k (parcel i d (heard j)) e = absurd (cc)
  jobs_of_cases k (parcel i d back) e = absurd (cc)
  jobs_of_cases k (parcel i d home) e = absurd (cc)
  jobs_of_cases k (alive j true) e = absurd (cc)
  jobs_of_cases k (alive j false) e = absurd (cc)
  jobs_of_cases k spent e = absurd (cc)

  pub said_of_cases :
      (k : ℕ) (it : Item) {b : List Bytes} {bs : List (List Bytes)}
      → said_of D k it ≡ b ∷ bs
      → ((i : ℕ) × (d : ℕ → ℕ) × (j : ℕ) × (k ≡ j) × (it ≡ parcel i d (said j)))
        ⊎ ((j : ℕ) × (k ≡ j) × (it ≡ alive j false))
  unfolding said_of
  said_of_cases k (parcel i d out) e = absurd (cc)
  said_of_cases k (parcel i d front) e = absurd (cc)
  said_of_cases k (parcel i d (dealt j)) e = absurd (cc)
  said_of_cases k (parcel i d (job j)) e = absurd (cc)
  said_of_cases k (parcel i d (said j)) e = inl (i, d, j, chosen k j _ e, refl)
  said_of_cases k (parcel i d (heard j)) e = absurd (cc)
  said_of_cases k (parcel i d back) e = absurd (cc)
  said_of_cases k (parcel i d home) e = absurd (cc)
  said_of_cases k (alive j true) e = absurd (cc)
  said_of_cases k (alive j false) e = inr (j, chosen k j _ e, refl)
  said_of_cases k spent e = absurd (cc)

  pub sent_of_cases :
      (k : ℕ) (it : Item) {b : Bytes} {bs : List Bytes}
      → sent_of D k it ≡ b ∷ bs
      → (i : ℕ) × (d : ℕ → ℕ) × (k ≡ i) × (it ≡ parcel i d out)
  unfolding sent_of
  sent_of_cases k (parcel i d out) e = (i, d, chosen k i _ e, refl)
  sent_of_cases k (parcel i d front) e = absurd (cc)
  sent_of_cases k (parcel i d (dealt j)) e = absurd (cc)
  sent_of_cases k (parcel i d (job j)) e = absurd (cc)
  sent_of_cases k (parcel i d (said j)) e = absurd (cc)
  sent_of_cases k (parcel i d (heard j)) e = absurd (cc)
  sent_of_cases k (parcel i d back) e = absurd (cc)
  sent_of_cases k (parcel i d home) e = absurd (cc)
  sent_of_cases k (alive j true) e = absurd (cc)
  sent_of_cases k (alive j false) e = absurd (cc)
  sent_of_cases k spent e = absurd (cc)

  pub got_of_cases :
      (k : ℕ) (it : Item) {b : Bytes} {bs : List Bytes}
      → got_of D k it ≡ b ∷ bs
      → (i : ℕ) × (d : ℕ → ℕ) × (k ≡ i) × (it ≡ parcel i d home)
  unfolding got_of
  got_of_cases k (parcel i d out) e = absurd (cc)
  got_of_cases k (parcel i d front) e = absurd (cc)
  got_of_cases k (parcel i d (dealt j)) e = absurd (cc)
  got_of_cases k (parcel i d (job j)) e = absurd (cc)
  got_of_cases k (parcel i d (said j)) e = absurd (cc)
  got_of_cases k (parcel i d (heard j)) e = absurd (cc)
  got_of_cases k (parcel i d back) e = absurd (cc)
  got_of_cases k (parcel i d home) e = (i, d, chosen k i _ e, refl)
  got_of_cases k (alive j true) e = absurd (cc)
  got_of_cases k (alive j false) e = absurd (cc)
  got_of_cases k spent e = absurd (cc)
