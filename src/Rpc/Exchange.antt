-- ===== src/Rpc/Exchange.antt =====
-- The programs dummy_car and dummy_planning at one server, their calls in any order.
use sim_tools.Base.{
  ℕ, zero, suc, ◌+◌, ◌≡◌, refl, ap, Bool, true, false, List, [], ◌∷◌, if◌then◌else◌, All, arith,
}
use sim_tools.Base.Bytes.{Bytes, bytes_eq}
use sim_tools.Base.Outcome.{done, ◌>>=◌}
use sim_tools.Rpc.Messages.{Protobuf}
use sim_tools.Rpc.Store.{Call, Store, Response, get, set, put, promise, promises, session}
use sim_tools.Rpc.Refinement.{IsProper, session-promises}
use sim_tools.Rpc.Service.{make_server, service_get, find, or_empty}
use sim_tools.Rpc.Programs.{
  location, trajectory, no_location, no_trajectory, Location, Trajectory, Messages, Printed,
  a_location, a_trajectory, print_message, car_location, planning_trajectory, car_calls,
  planning_calls,
}

-- The calls of two programs, by turns: true is a turn of the first.
unfoldable pub interleave : List Bool → List Call → List Call → List Call
interleave [] cs ds = []
interleave (true ∷ turns) [] ds = interleave turns [] ds
interleave (true ∷ turns) (c ∷ cs) ds = c ∷ interleave turns cs ds
interleave (false ∷ turns) cs [] = interleave turns cs []
interleave (false ∷ turns) cs (d ∷ ds) = d ∷ interleave turns cs ds

module _ (M : Messages) where
  -- The last location and trajectory after so many rounds, which are empty at first.
  unfoldable pub driven : ℕ → Location M.Real
  driven zero = no_location M.zero_real
  driven (suc a) = car_location M a

  unfoldable pub planned : ℕ → Trajectory M.Real
  planned zero = no_trajectory M.zero_real
  planned (suc b) = planning_trajectory M b (planned b)

  abbrev pub latest : ℕ → ℕ → Bytes → Printed M.Real
  latest a b topic =
      if bytes_eq location topic then a_location (driven a) else a_trajectory (planned b)

  -- What is printed of the response to a get is the latest message, where a locations and b
  -- trajectories have been set before.
  abbrev pub Reads : ℕ → ℕ → List Call → List Response → Type 0
  Reads a b [] [] = Unit {0}
  Reads a b (get id topic ∷ calls) (r ∷ rs) =
      (print_message M topic r.0 ≡ latest a b topic) × Reads a b calls rs
  Reads a b (set id topic payload ∷ calls) (r ∷ rs) =
      if bytes_eq location topic then Reads (suc a) b calls rs else Reads a (suc b) calls rs
  Reads a b _ _ = ⊥

  -- The calls that are left to the programs after so many rounds.
  abbrev CarCalls : ℕ → List Call → Type 0
  CarCalls a [] = Unit {0}
  CarCalls a (get id topic ∷ cs) = (topic ≡ trajectory) × CarCalls a cs
  CarCalls a (set id topic payload ∷ cs) =
      (topic ≡ location) × (M.read_location payload ≡ driven (suc a)) × CarCalls (suc a) cs

  abbrev PlanningCalls : ℕ → List Call → Type 0
  PlanningCalls b [] = Unit {0}
  PlanningCalls b (get id topic ∷ ds) = (topic ≡ location) × PlanningCalls b ds
  PlanningCalls b (set id topic payload ∷ ds) =
      (topic ≡ trajectory)
      × (M.read_trajectory payload ≡ planned (suc b))
      × PlanningCalls (suc b) ds

  car_calls-CarCalls : (a rounds : ℕ) → CarCalls a (car_calls M a rounds)
  unfolding car_calls driven
  car_calls-CarCalls a zero = tt
  car_calls-CarCalls a (suc rounds) = (
    refl,
    (
      refl,
      M.read-write_location (car_location M a),
      (let next : a + 1 ≡ suc a = omega arith in rw next (car_calls-CarCalls (suc a) rounds)),
    ),
  )

  planning_calls-PlanningCalls :
      (b rounds : ℕ) → PlanningCalls b (planning_calls M b (planned b) rounds)
  unfolding planning_calls planned
  planning_calls-PlanningCalls b zero = tt
  planning_calls-PlanningCalls b (suc rounds) = (
    refl,
    (
      refl,
      M.read-write_trajectory (planning_trajectory M b (planned b)),
      (let next : b + 1 ≡ suc b = omega arith in
          rw next (planning_calls-PlanningCalls (suc b) rounds)),
    ),
  )

  abbrev Published : ℕ → ℕ → Store → Type 0
  Published a b store =
      (M.read_location (store location) ≡ driven a)
      × (M.read_trajectory (store trajectory) ≡ planned b)

  module _ (P : Protobuf) where
    -- What a list of calls needs, and what its responses tell.
    abbrev Works : ℕ → ℕ → Store → List Call → Type 0
    Works a b store calls = All (IsProper P) calls × Reads a b calls (promises store calls)

    get_location :
        (a b : ℕ) (store : Store) (id topic : Bytes) (calls : List Call)
        → topic ≡ location
        → Published a b store
        → Works a b store calls
        → Works a b store (get id topic ∷ calls)
    unfolding promises promise print_message bytes_eq location trajectory
    get_location a b store id topic calls e known (proper, reads) =
        rw e ((tt, proper), (ap a_location known.0, reads))

    get_trajectory :
        (a b : ℕ) (store : Store) (id topic : Bytes) (calls : List Call)
        → topic ≡ trajectory
        → Published a b store
        → Works a b store calls
        → Works a b store (get id topic ∷ calls)
    unfolding promises promise print_message bytes_eq location trajectory
    get_trajectory a b store id topic calls e known (proper, reads) =
        rw e ((tt, proper), (ap a_trajectory known.1, reads))

    set_location :
        (a b : ℕ) (store : Store) (id topic payload : Bytes) (calls : List Call)
        → topic ≡ location
        → M.read_location payload ≡ driven (suc a)
        → Published a b store
        → ((store' : Store) → Published (suc a) b store' → Works (suc a) b store' calls)
        → Works a b store (set id topic payload ∷ calls)
    unfolding promises promise bytes_eq location trajectory
    set_location a b store id topic payload calls e new known work =
        let (proper, reads) = work (put store location payload) (new, known.1) in
        rw e (((omega arith, P.ascii_text _ (omega arith)), proper), reads)

    set_trajectory :
        (a b : ℕ) (store : Store) (id topic payload : Bytes) (calls : List Call)
        → topic ≡ trajectory
        → M.read_trajectory payload ≡ planned (suc b)
        → Published a b store
        → ((store' : Store) → Published a (suc b) store' → Works a (suc b) store' calls)
        → Works a b store (set id topic payload ∷ calls)
    unfolding promises promise bytes_eq location trajectory
    set_trajectory a b store id topic payload calls e new known work =
        let (proper, reads) = work (put store trajectory payload) (known.0, new) in
        rw e (((omega arith, P.ascii_text _ (omega arith)), proper), reads)

    interleave-Works :
        (turns : List Bool) (cs ds : List Call) (a b : ℕ) (store : Store)
        → CarCalls a cs
        → PlanningCalls b ds
        → Published a b store
        → Works a b store (interleave turns cs ds)
    unfolding interleave promises
    interleave-Works [] cs ds a b store car plan known = (tt, tt)
    interleave-Works (true ∷ turns) [] ds a b store car plan known =
        interleave-Works turns [] ds a b store car plan known
    interleave-Works (true ∷ turns) (get id topic ∷ cs) ds a b store car plan known =
        get_trajectory a b store id topic _ car.0 known
          (interleave-Works turns cs ds a b store car.1 plan known)
    interleave-Works (true ∷ turns) (set id topic payload ∷ cs) ds a b store car plan known =
        set_location a b store id topic payload _ car.0 car.1 known
          (λ store' known'. interleave-Works turns cs ds (suc a) b store' car.2 plan known')
    interleave-Works (false ∷ turns) cs [] a b store car plan known =
        interleave-Works turns cs [] a b store car plan known
    interleave-Works (false ∷ turns) cs (get id topic ∷ ds) a b store car plan known =
        get_location a b store id topic _ plan.0 known
          (interleave-Works turns cs ds a b store car plan.1 known)
    interleave-Works (false ∷ turns) cs (set id topic payload ∷ ds) a b store car plan known =
        set_trajectory a b store id topic payload _ plan.0 plan.1 known
          (λ store' known'. interleave-Works turns cs ds a (suc b) store' car plan.2 known')

    -- Whatever the turns that the programs' calls take, so many rounds of dummy_car and dummy_planning
    -- at one new server get through, and each prints, of what it gets, the last message that the
    -- other has set; before the first, the message without fields.
    pub exchange-latest :
        (turns : List Bool) (n m : ℕ)
        → (rs : List Response) × ((make_server true >>= λ server.
              session P server
                (interleave turns (car_calls M 0 n) (planning_calls M 0 (planned 0) m)))
            ≡ done rs)
          × Reads 0 0 (interleave turns (car_calls M 0 n) (planning_calls M 0 (planned 0) m)) rs
    unfolding service_get or_empty find driven planned make_server
    exchange-latest turns n m =
        let (proper, reads) =
          interleave-Works turns (car_calls M 0 n) (planning_calls M 0 (planned 0) m) 0 0 (λ t. [])
            (car_calls-CarCalls 0 n) (planning_calls-PlanningCalls 0 m)
            (M.empty_location, M.empty_trajectory) in
        (_, session-promises P [] (λ t. []) _ (λ t. refl) proper, reads)
