-- ===== src/Rpc/Messages.antt =====
-- The messages of sync_rpc: the protobuf messages of message/rpc.proto, the code that protobuf makes
-- of them as a parameter, and the parts of MessageHelper that use it. stringToZMQMsg and
-- ZMQMsgToString are the same code as in cluster_core.cpp, and so are their definitions.
use sim_tools.Base.{ℕ, zero, suc, ◌<◌, ◌≡◌, refl, ap, [], ◌∷◌, All, arith}
use sim_tools.Base.Bytes.{Bytes}
use sim_tools.Base.Outcome.{Outcome, done, ◌>>=◌}
use sim_tools.Core.Text.{string_to_zmq_msg, zmq_msg_to_string}
use sim_tools.Core.Names.{IsChar, zmq_msg-roundtrip}

pub record CallInfo : Type 0 where
  pub func_name : Bytes
  pub flag : ℕ

pub record ServiceStatus : Type 0 where
  pub state : ℕ
  pub info : Bytes

pub record MsgPair : Type 0 where
  pub topic : Bytes
  pub payload : Bytes

-- The initial value of a status.
abbrev pub default_status : ServiceStatus
default_status = record { state = 0; info = [] }

-- "getMessageByTopic_string_string" and "setMessageByTopic_string_string".
unfoldable pub get_name : Bytes
get_name =
    103 ∷ 101 ∷ 116 ∷ 77 ∷ 101 ∷ 115 ∷ 115 ∷ 97 ∷ 103 ∷ 101 ∷ 66 ∷ 121 ∷ 84 ∷ 111 ∷ 112 ∷ 105 ∷ 99
    ∷ 95 ∷ 115 ∷ 116 ∷ 114 ∷ 105 ∷ 110 ∷ 103 ∷ 95 ∷ 115 ∷ 116 ∷ 114 ∷ 105 ∷ 110 ∷ 103 ∷ []

unfoldable pub set_name : Bytes
set_name =
    115 ∷ 101 ∷ 116 ∷ 77 ∷ 101 ∷ 115 ∷ 115 ∷ 97 ∷ 103 ∷ 101 ∷ 66 ∷ 121 ∷ 84 ∷ 111 ∷ 112 ∷ 105 ∷ 99
    ∷ 95 ∷ 115 ∷ 116 ∷ 114 ∷ 105 ∷ 110 ∷ 103 ∷ 95 ∷ 115 ∷ 116 ∷ 114 ∷ 105 ∷ 110 ∷ 103 ∷ []

-- "empty topic will not be served".
unfoldable pub empty_topic : Bytes
empty_topic =
    101 ∷ 109 ∷ 112 ∷ 116 ∷ 121 ∷ 32 ∷ 116 ∷ 111 ∷ 112 ∷ 105 ∷ 99 ∷ 32 ∷ 119 ∷ 105 ∷ 108 ∷ 108 ∷ 32
    ∷ 110 ∷ 111 ∷ 116 ∷ 32 ∷ 98 ∷ 101 ∷ 32 ∷ 115 ∷ 101 ∷ 114 ∷ 118 ∷ 101 ∷ 100 ∷ []

-- SerializeToString, and the message that ParseFromString leaves. A string field keeps what it
-- holds if that is UTF-8, a bytes field always.
pub record Protobuf : Type 1 where
  pub IsText : Bytes → Type 0
  pub ascii_text : (s : Bytes) → All (λ c. c < 128) s → IsText s
  pub write_info : CallInfo → Bytes
  pub read_info : Bytes → CallInfo
  pub read-write_info : (m : CallInfo) → IsText m.func_name → read_info (write_info m) ≡ m
  pub write_status : ServiceStatus → Bytes
  pub read_status : Bytes → ServiceStatus
  pub read-write_status : (m : ServiceStatus) → IsText m.info → read_status (write_status m) ≡ m
  pub write_pair : MsgPair → Bytes
  pub read_pair : Bytes → MsgPair
  pub read-write_pair : (m : MsgPair) → IsText m.topic → read_pair (write_pair m) ≡ m

-- protobufToZMQMsg and parseFromZMQMsg, of a message with the given conversion.
unfoldable pub protobuf_to_zmq_msg : {M : Type 0} → (M → Bytes) → M → Bytes
protobuf_to_zmq_msg serialize message = string_to_zmq_msg (serialize message)

unfoldable pub parse_from_zmq_msg : {M : Type 0} → (Bytes → M) → Bytes → Outcome M
parse_from_zmq_msg parse msg = do payload ← zmq_msg_to_string msg; done (parse payload)

-- The string that c_str() gives to a reader of C strings.
unfoldable pub until_nul : Bytes → Bytes
until_nul [] = []
until_nul (zero ∷ s) = []
until_nul (suc c ∷ s) = suc c ∷ until_nul s

pub until_nul_lem : (s : Bytes) → All IsChar s → until_nul s ≡ s
unfolding until_nul
until_nul_lem [] h = refl
until_nul_lem (zero ∷ s) h = absurd (omega arith)
until_nul_lem (suc c ∷ s) h = ap (◌∷◌ (suc c)) (until_nul_lem s h.1)

-- A message that is read as it was written survives the frame.
pub parse_from-protobuf_to :
    {M : Type 0} (write : M → Bytes) (read : Bytes → M) (m : M)
    → read (write m) ≡ m
    → parse_from_zmq_msg read (protobuf_to_zmq_msg write m) ≡ done m
unfolding protobuf_to_zmq_msg parse_from_zmq_msg
parse_from-protobuf_to write read m h = rw (zmq_msg-roundtrip (write m)) (ap done h)
