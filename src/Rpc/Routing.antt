-- ===== src/Rpc/Routing.antt =====
-- The loop of the server of sync_rpc, on any calls.
use sim_tools.Base.{◌≡◌, refl, ◌≢◌, List, [], ◌∷◌, ◌++◌, length, All, Bool-cases, inl, inr}
use sim_tools.Base.Bytes.{Bytes, bytes_eq}
use sim_tools.Base.Outcome.{done}
use sim_tools.Core.Text.{zmq_msg_to_string}
use sim_tools.Rpc.Messages.{
  CallInfo, Protobuf, get_name, set_name, protobuf_to_zmq_msg, parse_from_zmq_msg,
}
use sim_tools.Rpc.Service.{
  MsgMap, Server, Dispatched, dispatch, dispatch_get, dispatch_set, serve_round, serve,
}

-- A request as the router socket gives it. Each frame has a byte, which may be a lone NUL.
pub record Request : Type 0 where
  pub identity : Bytes
  pub info_msg : Bytes
  pub req_msg : Bytes

abbrev pub IsRequest : Request → Type 0
IsRequest r = (r.info_msg ≢ []) × (r.req_msg ≢ [])

abbrev pub request_frames : List Request → List Bytes
request_frames [] = []
request_frames (r ∷ rs) = r.identity ∷ r.info_msg ∷ r.req_msg ∷ request_frames rs

-- The answers go to the callers, one by one, each with the call's frame and two frames more.
abbrev pub Answers : List Request → List (List Bytes) → Type 0
Answers [] [] = Unit {0}
Answers [] (a ∷ sent) = ⊥
Answers (r ∷ rs) [] = ⊥
Answers (r ∷ rs) (a ∷ sent) =
    ((status : Bytes) × (reply : Bytes) × (a ≡ r.identity ∷ r.info_msg ∷ status ∷ reply ∷ []))
    × Answers rs sent

parse_from-done :
    {M : Type 0} (read : Bytes → M) (msg : Bytes)
    → msg ≢ []
    → (x : M) × (parse_from_zmq_msg read msg ≡ done x)
unfolding parse_from_zmq_msg zmq_msg_to_string
parse_from-done read [] h = absurd (h refl)
parse_from-done read (b ∷ msg) h = (_, refl)

module _ (P : Protobuf) where
  dispatch-done :
      (m : MsgMap) (info : CallInfo) (req : Bytes)
      → req ≢ []
      → (d : Dispatched) × (dispatch P m info req ≡ done d)
  unfolding dispatch dispatch_set dispatch_get parse_from_zmq_msg zmq_msg_to_string
  dispatch-done m info [] h = absurd (h refl)
  dispatch-done m info (b ∷ req) h = elim (Bool-cases (bytes_eq info.func_name set_name)) [
    | inl y ↦ rw y (_, refl)
    | inr n ↦ elim (Bool-cases (bytes_eq info.func_name get_name)) [
      | inl y ↦ rw (n, y) (_, refl)
      | inr k ↦ rw (n, k) (_, refl)
    ]
  ]

  serve_round-answer :
      (m : MsgMap) (r : Request) (rest : List Bytes)
      → IsRequest r
      → (d : Dispatched) × (serve_round P
            (record { messages = m; input = r.identity ∷ r.info_msg ∷ r.req_msg ∷ rest })
          ≡ done (
            record { messages = d.messages; input = rest },
            r.identity
                ∷ r.info_msg
                ∷ protobuf_to_zmq_msg P.write_status d.status
                ∷ d.reply_msg
                ∷ [],
          ))
  unfolding serve_round
  serve_round-answer m r rest ok =
      let (info, p) = parse_from-done P.read_info r.info_msg ok.0 in
      let (d, q) = dispatch-done m info r.req_msg ok.1 in (d, rw (p, q) refl)

  -- As many rounds as requests answer them all, in their order, each to the one that sent it.
  pub serve-Answers :
      (rs : List Request) (m : MsgMap) (rest : List Bytes)
      → All IsRequest rs
      → (s : Server) × (sent : List (List Bytes)) × (serve P
            (length rs)
            (record { messages = m; input = request_frames rs ++ rest })
          ≡ done (s, sent))
        × (s.input ≡ rest)
        × Answers rs sent
  unfolding serve
  serve-Answers [] m rest ok = (record { messages = m; input = rest }, [], refl, refl, tt)
  serve-Answers (r ∷ rs) m rest ok =
      let (d, e) = serve_round-answer m r (request_frames rs ++ rest) ok.0 in
      let (s, sent, e', i, a) = serve-Answers rs d.messages rest ok.1 in
      (
        s,
        (r.identity ∷ r.info_msg ∷ protobuf_to_zmq_msg P.write_status d.status ∷ d.reply_msg ∷ [])
            ∷ sent,
        rw (e, e') refl,
        i,
        ((_, _, refl), a),
      )
