-- ===== src/Direct/Topics.antt =====
-- The router of router_request/dummy_router.cpp and the client of dummy_car.cpp. What protobuf
-- serialises is a parameter.
use sim_tools.Base.{List, [], ◌∷◌, ◌++◌, if◌then◌else◌}
use sim_tools.Base.Bytes.{Bytes, bytes_eq}
use sim_tools.Base.Outcome.{Outcome, done, ◌>>=◌, recv}
use sim_tools.Core.Text.{string_to_zmq_msg, c_string}

-- "LOCATION" and "TRAJECTORY".
unfoldable pub location_topic : Bytes
location_topic = 76 ∷ 79 ∷ 67 ∷ 65 ∷ 84 ∷ 73 ∷ 79 ∷ 78 ∷ []

unfoldable pub trajectory_topic : Bytes
trajectory_topic = 84 ∷ 82 ∷ 65 ∷ 74 ∷ 69 ∷ 67 ∷ 84 ∷ 79 ∷ 82 ∷ 89 ∷ []

-- `location` and `trajectory` are the serialised messages, and the log what is sent.
pub record TopicRouter : Type 0 where
  pub location : Bytes
  pub trajectory : Bytes
  pub input : List Bytes
  pub log : List (List Bytes)

abbrev pub reply_with : TopicRouter → Bytes → Bytes → TopicRouter
reply_with r identity_msg payload = record r {
  log = r.log ++ (identity_msg ∷ [] ∷ string_to_zmq_msg payload ∷ []) ∷ [];
}

-- One round of the loop. An unknown topic gets no reply.
unfoldable pub topic_round : TopicRouter → Outcome TopicRouter
topic_round r = do
  (identity_msg, rest1) ← recv r.input
  (delimiter_msg, rest2) ← recv rest1
  (topic_msg, rest3) ← recv rest2
  identity ← c_string identity_msg
  topic ← c_string topic_msg
  let received = record r { input = rest3 }
  done (
      if bytes_eq topic location_topic
      then reply_with received identity_msg r.location
      else (if bytes_eq topic trajectory_topic
          then reply_with received identity_msg r.trajectory
          else received))

-- The payload that the client parses: the reply's frame, read as a C string.
unfoldable pub read_reply : List Bytes → Outcome Bytes
read_reply input = do (reply, rest) ← recv input; c_string reply
