-- ===== src/Rpc/Programs.antt =====
-- The programs dummy_car.cpp and dummy_planning.cpp as the calls that they make, and what
-- MessageHelper's printMessage prints of a payload.
use sim_tools.Base.{ℕ, zero, suc, ◌+◌, ◌≡◌, List, [], ◌∷◌, ◌++◌, if◌then◌else◌}
use sim_tools.Base.Bytes.{Bytes, bytes_eq}
use sim_tools.Rpc.Store.{Call, get, set}

-- "LOCATION" and "TRAJECTORY", "PLANNING" and "PerfectControl".
unfoldable pub location : Bytes
location = 76 ∷ 79 ∷ 67 ∷ 65 ∷ 84 ∷ 73 ∷ 79 ∷ 78 ∷ []

unfoldable pub trajectory : Bytes
trajectory = 84 ∷ 82 ∷ 65 ∷ 74 ∷ 69 ∷ 67 ∷ 84 ∷ 79 ∷ 82 ∷ 89 ∷ []

unfoldable pub planning : Bytes
planning = 80 ∷ 76 ∷ 65 ∷ 78 ∷ 78 ∷ 73 ∷ 78 ∷ 71 ∷ []

unfoldable pub perfect_control : Bytes
perfect_control =
    80 ∷ 101 ∷ 114 ∷ 102 ∷ 101 ∷ 99 ∷ 116 ∷ 67 ∷ 111 ∷ 110 ∷ 116 ∷ 114 ∷ 111 ∷ 108 ∷ []

-- The messages of location.proto and trajectory.proto, as far as the programs set their fields.
pub record Vec3d (R : Type 0) : Type 0 where
  pub x : R
  pub y : R
  pub z : R

pub record Location (R : Type 0) : Type 0 where
  pub time_second : R
  pub position : Vec3d R

pub record Trajectory (R : Type 0) : Type 0 where
  pub time_second : R
  pub point : List (Vec3d R)

-- A message before a field is set.
abbrev pub no_location : {R : Type 0} → R → Location R
no_location zero_real = record {
  time_second = zero_real;
  position = record { x = zero_real; y = zero_real; z = zero_real };
}

abbrev pub no_trajectory : {R : Type 0} → R → Trajectory R
no_trajectory zero_real = record { time_second = zero_real; point = [] }

-- What protobuf makes of the messages: what is serialised is parsed back, and the empty string is
-- a message without fields. A double is the quotient `over i d` of two integers.
pub record Messages : Type 1 where
  pub Real : Type 0
  pub zero_real : Real
  pub over : ℕ → ℕ → Real
  pub write_location : Location Real → Bytes
  pub read_location : Bytes → Location Real
  pub read-write_location : (m : Location Real) → read_location (write_location m) ≡ m
  pub write_trajectory : Trajectory Real → Bytes
  pub read_trajectory : Bytes → Trajectory Real
  pub read-write_trajectory : (m : Trajectory Real) → read_trajectory (write_trajectory m) ≡ m
  pub empty_location : read_location [] ≡ no_location zero_real
  pub empty_trajectory : read_trajectory [] ≡ no_trajectory zero_real

-- What printMessage writes to the log: a message, or that the topic is unknown.
pub data Printed (R : Type 0) : Type 0 where
  a_location : Location R → Printed R
  a_trajectory : Trajectory R → Printed R
  unknown_topic : Printed R

module _ (M : Messages) where
  unfoldable pub print_message : Bytes → Bytes → Printed M.Real
  print_message topic payload =
      if bytes_eq location topic
      then a_location (M.read_location payload)
      else (if bytes_eq trajectory topic
          then a_trajectory (M.read_trajectory payload)
          else unknown_topic)

  -- The data of dummy_car's round i.
  unfoldable pub car_location : ℕ → Location M.Real
  car_location i = record {
    time_second = M.over i 1000;
    position = record { x = M.over i 1; y = M.over i 2; z = M.over i 3 };
  }

  -- The data of dummy_planning's round i, whose message keeps the points of the rounds before.
  unfoldable pub planning_trajectory : ℕ → Trajectory M.Real → Trajectory M.Real
  planning_trajectory i t = record {
    time_second = M.over i 100;
    point = t.point ++ record { x = M.over i 1; y = M.over i 2; z = M.over i 4 } ∷ [];
  }

  -- The calls of the programs from round i on, for so many rounds.
  unfoldable pub car_calls : ℕ → ℕ → List Call
  car_calls i zero = []
  car_calls i (suc rounds) =
      get perfect_control trajectory
      ∷ set perfect_control location (M.write_location (car_location i))
      ∷ car_calls (i + 1) rounds

  unfoldable pub planning_calls : ℕ → Trajectory M.Real → ℕ → List Call
  planning_calls i t zero = []
  planning_calls i t (suc rounds) =
      let t' = planning_trajectory i t in
      get planning location
      ∷ set planning trajectory (M.write_trajectory t')
      ∷ planning_calls (i + 1) t' rounds
