-- ===== src/Rpc/Client.antt =====
-- Client of sync_rpc.cpp. Its socket is a parameter: from a state of what is behind it and the
-- frames sent, the next state and the frames that come back.
use sim_tools.Base.{Bool, true, false, List, [], ◌∷◌, ◌++◌}
use sim_tools.Base.Bytes.{Bytes}
use sim_tools.Base.Outcome.{Outcome, done, thrown, ◌>>=◌, recv}
use sim_tools.Core.Text.{string_to_zmq_msg, zmq_msg_to_string}
use sim_tools.Rpc.Messages.{
  CallInfo, ServiceStatus, MsgPair, Protobuf, get_name, set_name, empty_topic, until_nul,
  protobuf_to_zmq_msg, parse_from_zmq_msg,
}

-- The constructor: the socket's identity is the id with its NUL. `connects` tells whether the
-- connect call returns.
unfoldable pub make_client : Bool → Bytes → Outcome Bytes
make_client connects [] = thrown
make_client true (c ∷ id) = done (c ∷ id ++ 0 ∷ [])
make_client false (c ∷ id) = thrown

abbrev pub refused_status : ServiceStatus
refused_status = record { state = 1; info = empty_topic }

-- The RPCCallInfo of a call.
abbrev pub call_info : Bytes → CallInfo
call_info name = record { func_name = name; flag = 0 }

module _ (P : Protobuf) where
  -- The frames of a call's answer that the client reads: the status and the reply.
  unfoldable pub receive : List Bytes → Outcome (Bytes × ServiceStatus)
  receive frames = do
    (call_info_msg, rest1) ← recv frames
    (serv_state_msg, rest2) ← recv rest1
    (reply_msg, rest3) ← recv rest2
    status ← parse_from_zmq_msg P.read_status serv_state_msg
    done (reply_msg, status)

module _ (P : Protobuf) {W : Type 0} (link : W → List Bytes → Outcome (W × List Bytes)) where
  -- Client's getMessageByTopic, with the payload and the status.
  unfoldable pub client_get : W → Bytes → Outcome (W × (Bytes × ServiceStatus))
  client_get w [] = done (w, ([], refused_status))
  client_get w (c ∷ topic) = do
    let call_info_msg = protobuf_to_zmq_msg P.write_info (call_info get_name)
    (w1, frames) ← link w (call_info_msg ∷ string_to_zmq_msg (c ∷ topic) ∷ [])
    (reply_msg, status) ← receive P frames
    payload ← zmq_msg_to_string reply_msg
    done (w1, (payload, status))

  -- Client's setMessageByTopic. The topic goes through set_topic(const char*).
  unfoldable pub client_set : W → Bytes → Bytes → Outcome (W × ServiceStatus)
  client_set w [] payload = done (w, refused_status)
  client_set w (c ∷ topic) payload = do
    let call_info_msg = protobuf_to_zmq_msg P.write_info (call_info set_name)
    let msg_pair : MsgPair = record { topic = until_nul (c ∷ topic); payload = payload }
    (w1, frames) ← link w (call_info_msg ∷ protobuf_to_zmq_msg P.write_pair msg_pair ∷ [])
    (reply_msg, status) ← receive P frames
    done (w1, status)
