-- ===== src/Rpc/Refinement.antt =====
-- The client and the server of sync_rpc together, against the store.
use sim_tools.Base.{◌≡◌, refl, List, [], ◌∷◌, All, some, arith, if◌then◌else◌, Bool-cases, inl, inr}
use sim_tools.Base.Bytes.{Bytes, bytes_eq, bytes_eq_iff}
use sim_tools.Base.Outcome.{done}
use sim_tools.Core.Text.{string_to_zmq_msg}
use sim_tools.Core.Names.{IsChar, zmq_msg-roundtrip}
use sim_tools.Rpc.Messages.{
  MsgPair, Protobuf, default_status, get_name, set_name, protobuf_to_zmq_msg, until_nul_lem,
  parse_from-protobuf_to,
}
use sim_tools.Rpc.Service.{
  MsgMap, Server, Dispatched, find, set_entry, or_empty, service_get, service_set, dispatch,
  dispatch_get, dispatch_set, serve_round,
}
use sim_tools.Rpc.Client.{call_info, receive, client_get, client_set}
use sim_tools.Rpc.Store.{
  Call, Store, get, set, promise, promises, routed_back, link, perform, session,
}

abbrev pub idle : MsgMap → Server
idle m = record { messages = m; input = [] }

-- The service's messages are those of the store.
abbrev pub Holds : MsgMap → Store → Type 0
Holds m store = (topic : Bytes) → (service_get m topic).0 ≡ store topic

-- A get of any topic, and a set of a topic that is text without a NUL.
abbrev pub IsProper : Protobuf → Call → Type 0
IsProper P (get id topic) = Unit {0}
IsProper P (set id topic payload) = All IsChar topic × P.IsText topic

find-set_entry :
    (topic payload k : Bytes) (m : MsgMap)
    → find k (set_entry topic payload m) ≡ (if bytes_eq topic k then some payload else find k m)
unfolding find set_entry
find-set_entry topic payload k [] = refl
find-set_entry topic payload k ((j, v) ∷ m) = ground (
  arith,
  bytes_eq_iff j topic,
  bytes_eq_iff topic k,
  bytes_eq_iff j k,
  find-set_entry topic payload k m,
)

-- After a set, a get of any topic gives what the store has after a put.
pub service_get-service_set :
    (topic payload k : Bytes) (m : MsgMap)
    → (service_get (service_set m topic payload).0 k).0
      ≡ (if bytes_eq topic k then payload else (service_get m k).0)
unfolding service_get service_set or_empty
service_get-service_set topic payload k m =
    rw (find-set_entry topic payload k m)
      (elim (Bool-cases (bytes_eq topic k)) [ inl y ↦ rw y refl | inr n ↦ rw n refl ])

module _ (P : Protobuf) where
  get_name_text : P.IsText get_name
  unfolding get_name
  get_name_text = P.ascii_text _ (omega arith)

  set_name_text : P.IsText set_name
  unfolding set_name
  set_name_text = P.ascii_text _ (omega arith)

  -- The server's answer to a call of a function with the given name, from what dispatch makes of it.
  link-dispatch :
      (id name req : Bytes) (m : MsgMap) (d : Dispatched)
      → P.IsText name
      → dispatch P m (call_info name) req ≡ done d
      → link P id (idle m) (protobuf_to_zmq_msg P.write_info (call_info name) ∷ req ∷ [])
        ≡ done (
          idle d.messages,
          protobuf_to_zmq_msg P.write_info (call_info name)
              ∷ protobuf_to_zmq_msg P.write_status d.status
              ∷ d.reply_msg
              ∷ [],
        )
  unfolding link serve_round routed_back
  link-dispatch id name req m d text h =
      rw
        (
          parse_from-protobuf_to P.write_info P.read_info (call_info name)
              (P.read-write_info (call_info name) text),
          h,
        )
        refl

  dispatch-get :
      (topic : Bytes) (m : MsgMap)
      → dispatch P m (call_info get_name) (string_to_zmq_msg topic)
        ≡ done (record {
          messages = m;
          reply_msg = string_to_zmq_msg (service_get m topic).0;
          status = default_status;
        })
  unfolding dispatch dispatch_get get_name set_name bytes_eq
  dispatch-get topic m = rw (zmq_msg-roundtrip topic) refl

  dispatch-set :
      (pair : MsgPair) (m : MsgMap)
      → P.IsText pair.topic
      → dispatch P m (call_info set_name) (protobuf_to_zmq_msg P.write_pair pair)
        ≡ done (record {
          messages = (service_set m pair.topic pair.payload).0;
          reply_msg = [];
          status = default_status;
        })
  unfolding dispatch dispatch_set set_name bytes_eq
  dispatch-set pair m text =
      rw (parse_from-protobuf_to P.write_pair P.read_pair pair (P.read-write_pair pair text)) refl

  receive-answer :
      (info_msg reply_msg : Bytes)
      → receive P (info_msg ∷ protobuf_to_zmq_msg P.write_status default_status ∷ reply_msg ∷ [])
        ≡ done (reply_msg, default_status)
  unfolding receive
  receive-answer info_msg reply_msg =
      rw
        (parse_from-protobuf_to P.write_status P.read_status default_status
          (P.read-write_status default_status (P.ascii_text [] tt)))
        refl

  -- One call does what the store promises.
  pub perform-promise :
      (m : MsgMap) (store : Store) (call : Call)
      → Holds m store
      → IsProper P call
      → (m' : MsgMap) × (perform P (idle m) call ≡ done (idle m', (promise store call).1))
        × Holds m' (promise store call).0
  unfolding perform promise client_get client_set
  perform-promise m store (get id []) h ok = (m, refl, h)
  perform-promise m store (get id (c ∷ topic)) h ok = (
    m,
    rw
        (link-dispatch id get_name (string_to_zmq_msg (c ∷ topic)) m _ get_name_text
          (dispatch-get (c ∷ topic) m))
        (rw (receive-answer _ _, zmq_msg-roundtrip (service_get m (c ∷ topic)).0, h (c ∷ topic))
          refl),
    h,
  )
  perform-promise m store (set id [] payload) h ok = (m, refl, h)
  perform-promise m store (set id (c ∷ topic) payload) h ok = (
    (service_set m (c ∷ topic) payload).0,
    rw (until_nul_lem (c ∷ topic) ok.0) (
        rw
          (link-dispatch id set_name _ m _ set_name_text
            (dispatch-set (record { topic = c ∷ topic; payload = payload }) m ok.1))
          (rw (receive-answer _ []) refl)),
    λ k. rw (service_get-service_set (c ∷ topic) payload k m, h k) refl,
  )

  -- A session of any number of clients gets the responses that the store promises, if each topic that
  -- is set is UTF-8 text without a NUL, and the server holds at the start what the store does. A topic
  -- that is asked for can be any bytes.
  pub session-promises :
      (m : MsgMap) (store : Store) (calls : List Call)
      → Holds m store
      → All (IsProper P) calls
      → session P (idle m) calls ≡ done (promises store calls)
  unfolding session promises
  session-promises m store [] h ok = refl
  session-promises m store (call ∷ calls) h ok =
      let (m', e, h') = perform-promise m store call h ok.0 in
      rw (e, session-promises m' (promise store call).0 calls h' ok.1) refl
