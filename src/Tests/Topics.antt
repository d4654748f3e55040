-- ===== src/Tests/Topics.antt =====
-- The topic router at concrete inputs.
use sim_tools.Base.{◌≡◌, ◌≢◌, refl, [], ◌∷◌, arith, ◌⊎◌}
use sim_tools.Base.Bytes.{Bytes}
use sim_tools.Base.Outcome.{done, fault}
use sim_tools.Core.Text.{string_to_zmq_msg}
use sim_tools.Direct.Topics.{TopicRouter, location_topic, trajectory_topic, topic_round}
use sim_tools.Direct.TopicAnswers.{IsAnswered, topic_trip, topic_round-fault}

-- "LOCATION".
abbrev location_text : Bytes
location_text = 76 ∷ 79 ∷ 67 ∷ 65 ∷ 84 ∷ 73 ∷ 79 ∷ 78 ∷ []

abbrev asked_router : Bytes → TopicRouter
asked_router id = record {
  location = 9 ∷ 0 ∷ 8 ∷ [];
  trajectory = 7 ∷ [];
  input = id ∷ [] ∷ string_to_zmq_msg location_text ∷ [];
  log = [];
}

topic_trip_example :
    let r = asked_router (string_to_zmq_msg (99 ∷ [])) in
    ((location_text ≡ location_topic) × IsAnswered r (99 ∷ []) (9 ∷ 0 ∷ 8 ∷ []) [])
    ⊎ (((location_text ≡ trajectory_topic) × IsAnswered r (99 ∷ []) (7 ∷ []) [])
        ⊎ ((location_text ≢ location_topic)
            × (location_text ≢ trajectory_topic)
            × (topic_round r ≡ done (record r { input = [] }))))
topic_trip_example =
    topic_trip (asked_router (string_to_zmq_msg (99 ∷ []))) (99 ∷ []) [] location_text []
      (omega arith) refl

topic_round-fault_example : topic_round (asked_router (99 ∷ [])) ≡ fault
topic_round-fault_example =
    topic_round-fault (asked_router (99 ∷ [])) (99 ∷ []) [] (string_to_zmq_msg location_text) []
      (omega arith) refl
