-- ===== src/Direct/TopicAnswers.antt =====
-- What the clients of router_request get.
use sim_tools.Base.{
  zero, suc, ◌≡◌, ◌≢◌, refl, List, [], ◌∷◌, ◌++◌, All, arith, ◌⊎◌, inl, inr, Bool-cases,
}
use sim_tools.Base.Bytes.{Bytes, bytes_eq, bytes_eq_iff}
use sim_tools.Base.Outcome.{done, fault}
use sim_tools.Core.Text.{string_to_zmq_msg, c_string}
use sim_tools.Core.Names.{IsChar}
use sim_tools.Rpc.Messages.{until_nul, until_nul_lem}
use sim_tools.Direct.Topics.{TopicRouter, location_topic, trajectory_topic, topic_round, read_reply}

c_string-string_to_zmq_msg : (s : Bytes) → c_string (string_to_zmq_msg s) ≡ done (until_nul s)
unfolding c_string string_to_zmq_msg until_nul
c_string-string_to_zmq_msg [] = refl
c_string-string_to_zmq_msg (zero ∷ s) = refl
c_string-string_to_zmq_msg (suc c ∷ s) = rw (c_string-string_to_zmq_msg s) refl

c_string-fault : (s : Bytes) → All IsChar s → c_string s ≡ fault
unfolding c_string
c_string-fault [] h = refl
c_string-fault (zero ∷ s) h = absurd (omega arith)
c_string-fault (suc c ∷ s) h = rw (c_string-fault s h.1) refl

-- The router sends the payload to the one that asked, behind an empty delimiter, and is otherwise as
-- before; the client parses what stands before the payload's first NUL.
abbrev pub IsAnswered : TopicRouter → Bytes → Bytes → List Bytes → Type 0
IsAnswered r id payload rest =
    (topic_round r
      ≡ done (record r {
        input = rest;
        log = r.log ++ (string_to_zmq_msg id ∷ [] ∷ string_to_zmq_msg payload ∷ []) ∷ [];
      }))
    × (read_reply (string_to_zmq_msg payload ∷ []) ≡ done (until_nul payload))

-- For an identity that ends with a NUL and a topic without one: if the topic is the location, the
-- router sends one message, which is the identity, the empty delimiter and the location, and the client
-- parses what stands before the first NUL of the location; if it is the trajectory, the same with the
-- trajectory; and for any other topic the router sends nothing.
pub topic_trip :
    (r : TopicRouter) (id delimiter topic : Bytes) (rest : List Bytes)
    → All IsChar topic
    → r.input ≡ string_to_zmq_msg id ∷ delimiter ∷ string_to_zmq_msg topic ∷ rest
    → ((topic ≡ location_topic) × IsAnswered r id r.location rest)
      ⊎ (((topic ≡ trajectory_topic) × IsAnswered r id r.trajectory rest)
          ⊎ ((topic ≢ location_topic)
              × (topic ≢ trajectory_topic)
              × (topic_round r ≡ done (record r { input = rest }))))
unfolding topic_round read_reply
topic_trip r id delimiter topic rest chars h =
    rw
      (
        h,
        c_string-string_to_zmq_msg id,
        c_string-string_to_zmq_msg topic,
        until_nul_lem topic chars,
      )
      (elim (Bool-cases (bytes_eq topic location_topic)) [
        | inl y ↦ inl (
          (bytes_eq_iff topic location_topic).0 y,
          (rw y refl, c_string-string_to_zmq_msg r.location),
        )
        | inr n ↦ inr (elim (Bool-cases (bytes_eq topic trajectory_topic)) [
          | inl y ↦ inl (
            (bytes_eq_iff topic trajectory_topic).0 y,
            (rw (n, y) refl, c_string-string_to_zmq_msg r.trajectory),
          )
          | inr m ↦ inr (
            λ e. cc (n, (bytes_eq_iff topic location_topic).1 e),
            λ e. cc (m, (bytes_eq_iff topic trajectory_topic).1 e),
            rw (n, m) refl,
          )
        ])
      ])

-- An identity without a NUL, as the clients set it, is read past the end of its frame.
pub topic_round-fault :
    (r : TopicRouter) (id delimiter topic_msg : Bytes) (rest : List Bytes)
    → All IsChar id
    → r.input ≡ id ∷ delimiter ∷ topic_msg ∷ rest
    → topic_round r ≡ fault
unfolding topic_round
topic_round-fault r id delimiter topic_msg rest chars h = rw (h, c_string-fault id chars) refl
