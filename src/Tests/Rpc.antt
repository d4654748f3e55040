-- ===== src/Tests/Rpc.antt =====
-- The client and the server of sync_rpc at concrete inputs, with a small codec as protobuf.
use sim_tools.Base.{
  ℕ, ◌≡◌, refl, ap, Bool, true, false, List, [], ◌∷◌, ◌++◌, length, take, drop, take-append,
  drop-append, arith,
}
use sim_tools.Base.Bytes.{Bytes}
use sim_tools.Base.Outcome.{done, ◌>>=◌}
use sim_tools.Rpc.Messages.{CallInfo, ServiceStatus, MsgPair, Protobuf}
use sim_tools.Rpc.Service.{make_server, Server, serve, service_get, find, or_empty}
use sim_tools.Rpc.Store.{Call, Response, get, set, promises, session}
use sim_tools.Rpc.Refinement.{idle, session-promises}
use sim_tools.Rpc.Programs.{
  Location, Trajectory, Vec3d, Messages, no_location, no_trajectory, car_calls, planning_calls,
}
use sim_tools.Rpc.Exchange.{interleave, planned, Reads, exchange-latest}
use sim_tools.Rpc.Routing.{Request, Answers, request_frames, serve-Answers}

abbrev read_info : Bytes → CallInfo
read_info [] = record { func_name = []; flag = 0 }
read_info (f ∷ name) = record { func_name = name; flag = f }

abbrev read_status : Bytes → ServiceStatus
read_status [] = record { state = 0; info = [] }
read_status (s ∷ info) = record { state = s; info = info }

abbrev read_pair : Bytes → MsgPair
read_pair [] = record { topic = []; payload = [] }
read_pair (n ∷ rest) = record { topic = take n rest; payload = drop n rest }

-- Every byte string is text, and the length of the topic stands in front of it.
abbrev codec : Protobuf
codec = record {
  IsText = λ s. Unit {0};
  ascii_text = λ s h. tt;
  write_info = λ m. m.flag ∷ m.func_name;
  read_info = read_info;
  read-write_info = λ m h. refl;
  write_status = λ m. m.state ∷ m.info;
  read_status = read_status;
  read-write_status = λ m h. refl;
  write_pair = λ m. length m.topic ∷ (m.topic ++ m.payload);
  read_pair = read_pair;
  read-write_pair = λ m h.
      rw
        (
          take-append (length m.topic) m.topic m.payload refl,
          drop-append (length m.topic) m.topic m.payload refl,
        )
        refl;
}

-- One client sets a topic, and another reads it, a topic that is not set, and the empty topic.
abbrev calls : List Call
calls =
    set (1 ∷ []) (84 ∷ []) (7 ∷ 0 ∷ 9 ∷ [])
    ∷ get (2 ∷ []) (84 ∷ [])
    ∷ get (2 ∷ []) (85 ∷ [])
    ∷ get (2 ∷ []) []
    ∷ []

session-promises_example : session codec (idle []) calls ≡ done (promises (λ t. []) calls)
unfolding service_get or_empty find
session-promises_example =
    session-promises codec [] (λ t. []) calls (λ t. refl) ((omega arith, tt), (tt, (tt, (tt, tt))))

abbrev requests : List Request
requests =
    record { identity = 1 ∷ 0 ∷ []; info_msg = 0 ∷ []; req_msg = 84 ∷ 0 ∷ [] }
    ∷ record { identity = 2 ∷ 0 ∷ []; info_msg = 0 ∷ 88 ∷ 0 ∷ []; req_msg = 0 ∷ [] }
    ∷ []

serve-Answers_example :
    (s : Server) × (sent : List (List Bytes)) × (serve codec 2
        (record { messages = []; input = request_frames requests ++ [] })
      ≡ done (s, sent))
    × (s.input ≡ [])
    × Answers requests sent
serve-Answers_example =
    serve-Answers codec requests [] [] ((λ e. cc, λ e. cc), ((λ e. cc, λ e. cc), tt))

-- Numbers in place of doubles, and the fields one after the other.
abbrev read_location : Bytes → Location ℕ
read_location (t ∷ x ∷ y ∷ z ∷ []) = record {
  time_second = t;
  position = record { x = x; y = y; z = z };
}
read_location _ = no_location 0

abbrev write_points : List (Vec3d ℕ) → Bytes
write_points [] = []
write_points (p ∷ ps) = p.x ∷ p.y ∷ p.z ∷ write_points ps

abbrev read_points : Bytes → List (Vec3d ℕ)
read_points (x ∷ y ∷ z ∷ rest) = record { x = x; y = y; z = z } ∷ read_points rest
read_points _ = []

read_points-write_points : (ps : List (Vec3d ℕ)) → read_points (write_points ps) ≡ ps
read_points-write_points [] = refl
read_points-write_points (p ∷ ps) = ap (◌∷◌ p) (read_points-write_points ps)

abbrev read_trajectory : Bytes → Trajectory ℕ
read_trajectory [] = no_trajectory 0
read_trajectory (t ∷ points) = record { time_second = t; point = read_points points }

abbrev messages : Messages
messages = record {
  Real = ℕ;
  zero_real = 0;
  over = λ i d. i;
  write_location = λ l. l.time_second ∷ l.position.x ∷ l.position.y ∷ l.position.z ∷ [];
  read_location = read_location;
  read-write_location = λ m. refl;
  write_trajectory = λ t. t.time_second ∷ write_points t.point;
  read_trajectory = read_trajectory;
  read-write_trajectory = λ t. rw (read_points-write_points t.point) refl;
  empty_location = refl;
  empty_trajectory = refl;
}

-- The planner's first round, one of the car's, and what is left of two rounds of the planner.
abbrev turns : List Bool
turns = false ∷ false ∷ true ∷ true ∷ false ∷ false ∷ []

exchange-latest_example :
    (rs : List Response) × ((make_server true >>= λ server.
    session codec server (
      interleave turns (car_calls messages 0 1) (planning_calls messages 0 (planned messages 0) 2)))
      ≡ done rs)
    × Reads messages 0 0
        (interleave turns
          (car_calls messages 0 1)
          (planning_calls messages 0 (planned messages 0) 2))
        rs
exchange-latest_example = exchange-latest messages codec turns 1 2
