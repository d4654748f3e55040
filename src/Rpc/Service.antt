-- ===== src/Rpc/Service.antt =====
-- ServiceImp_A and Server of sync_rpc.cpp: the messages by topic, and the calls that reach them.
use sim_tools.Base.{
  ℕ, zero, suc, Bool, true, false, List, [], ◌∷◌, Option, none, some, if◌then◌else◌,
}
use sim_tools.Base.Bytes.{Bytes, bytes_eq}
use sim_tools.Base.Outcome.{Outcome, done, thrown, ◌>>=◌, recv}
use sim_tools.Core.Text.{string_to_zmq_msg, zmq_msg_to_string}
use sim_tools.Rpc.Messages.{
  CallInfo, ServiceStatus, Protobuf, default_status, get_name, set_name, protobuf_to_zmq_msg,
  parse_from_zmq_msg,
}

-- msgMap_, a std::unordered_map, as a list of its entries.
abbrev pub MsgMap : Type 0
MsgMap = List (Bytes × Bytes)

unfoldable pub find : Bytes → MsgMap → Option Bytes
find topic [] = none
find topic ((k, v) ∷ m) = if bytes_eq k topic then some v else find topic m

-- msgMap_[topic] = payload.
unfoldable pub set_entry : Bytes → Bytes → MsgMap → MsgMap
set_entry topic payload [] = (topic, payload) ∷ []
set_entry topic payload ((k, v) ∷ m) =
    if bytes_eq k topic then (k, payload) ∷ m else (k, v) ∷ set_entry topic payload m

unfoldable pub or_empty : Option Bytes → Bytes
or_empty none = []
or_empty (some payload) = payload

-- ServiceImp_A's getMessageByTopic and setMessageByTopic, with the status that they return.
unfoldable pub service_get : MsgMap → Bytes → Bytes × ServiceStatus
service_get m topic = (or_empty (find topic m), default_status)

unfoldable pub service_set : MsgMap → Bytes → Bytes → MsgMap × ServiceStatus
service_set m topic payload = (set_entry topic payload m, default_status)

-- What dispatch leaves: the messages, the frame of the reply and the status.
pub record Dispatched : Type 0 where
  pub messages : MsgMap
  pub reply_msg : Bytes
  pub status : ServiceStatus

-- The router socket's input, and the messages of the service.
pub record Server : Type 0 where
  pub messages : MsgMap
  pub input : List Bytes

-- The constructor. `binds` tells whether the bind call returns.
unfoldable pub make_server : Bool → Outcome Server
make_server true = done (record { messages = []; input = [] })
make_server false = thrown

module _ (P : Protobuf) where
  unfoldable pub dispatch_set : MsgMap → Bytes → Outcome Dispatched
  dispatch_set m msg_req = do
    pair ← parse_from_zmq_msg P.read_pair msg_req
    done (record {
      messages = (service_set m pair.topic pair.payload).0;
      reply_msg = [];
      status = default_status;
    })

  unfoldable pub dispatch_get : MsgMap → Bytes → Outcome Dispatched
  dispatch_get m msg_req = do
    topic ← zmq_msg_to_string msg_req
    done (record {
      messages = m;
      reply_msg = string_to_zmq_msg (service_get m topic).0;
      status = default_status;
    })

  -- The statuses of the two operations are dropped, as the source drops them. An unknown function
  -- leaves the frame of the reply as it was made, without a byte.
  unfoldable pub dispatch : MsgMap → CallInfo → Bytes → Outcome Dispatched
  dispatch m call_info msg_req =
      if bytes_eq call_info.func_name set_name
      then dispatch_set m msg_req
      else (if bytes_eq call_info.func_name get_name
          then dispatch_get m msg_req
          else done (record { messages = m; reply_msg = []; status = default_status }))

  -- One round of serve, with the multipart message that it sends.
  unfoldable pub serve_round : Server → Outcome (Server × List Bytes)
  serve_round s = do
    (msg_id, rest1) ← recv s.input
    (msg_call_info, rest2) ← recv rest1
    (msg_req, rest3) ← recv rest2
    call_info ← parse_from_zmq_msg P.read_info msg_call_info
    served ← dispatch s.messages call_info msg_req
    let status_msg = protobuf_to_zmq_msg P.write_status served.status
    done (
      record { messages = served.messages; input = rest3 },
      msg_id ∷ msg_call_info ∷ status_msg ∷ served.reply_msg ∷ [],
    )

  -- The rounds of serve until stop_ is set, with what they send.
  unfoldable pub serve : ℕ → Server → Outcome (Server × List (List Bytes))
  serve zero s = done (s, [])
  serve (suc rounds) s = do
    (s1, sent) ← serve_round s
    (s2, more) ← serve rounds s1
    done (s2, sent ∷ more)
