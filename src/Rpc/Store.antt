-- ===== src/Rpc/Store.antt =====
-- What sync_rpc promises: one message for each topic, the empty one at first, that all clients share.
use sim_tools.Base.{◌++◌, List, [], ◌∷◌, if◌then◌else◌}
use sim_tools.Base.Bytes.{Bytes, bytes_eq}
use sim_tools.Base.Outcome.{Outcome, done, blocked, ◌>>=◌}
use sim_tools.Rpc.Messages.{ServiceStatus, Protobuf, default_status}
use sim_tools.Rpc.Service.{Server, serve_round}
use sim_tools.Rpc.Client.{client_get, client_set, refused_status}

-- A call of the client with the given id.
pub data Call : Type 0 where
  get : (id topic : Bytes) → Call
  set : (id topic payload : Bytes) → Call

-- What a call returns. A set returns no payload.
abbrev pub Response : Type 0
Response = Bytes × ServiceStatus

abbrev pub Store : Type 0
Store = Bytes → Bytes

abbrev pub put : Store → Bytes → Bytes → Store
put store topic payload = λ k. if bytes_eq topic k then payload else store k

-- The store and the response after a call.
unfoldable pub promise : Store → Call → Store × Response
promise store (get id []) = (store, ([], refused_status))
promise store (set id [] payload) = (store, ([], refused_status))
promise store (get id (c ∷ topic)) = (store, (store (c ∷ topic), default_status))
promise store (set id (c ∷ topic) payload) = (put store (c ∷ topic) payload, ([], default_status))

unfoldable pub promises : Store → List Call → List Response
promises store [] = []
promises store (call ∷ calls) = (promise store call).1 ∷ promises (promise store call).0 calls

-- A dealer socket with an identity, connected to the server's router socket: the router puts the
-- identity in front of a message, and takes it off the message that it routes by it.
unfoldable pub routed_back : Server × List Bytes → Outcome (Server × List Bytes)
routed_back (s, []) = blocked
routed_back (s, identity ∷ frames) = done (s, frames)

module _ (P : Protobuf) where
  unfoldable pub link : Bytes → Server → List Bytes → Outcome (Server × List Bytes)
  link id s frames = serve_round P (record s { input = s.input ++ id ∷ frames }) >>= routed_back

  -- A call of the source's client, against the source's server.
  unfoldable pub perform : Server → Call → Outcome (Server × Response)
  perform s (get id topic) = client_get P (link id) s topic
  perform s (set id topic payload) = do
    (s1, status) ← client_set P (link id) s topic payload
    done (s1, ([], status))

  unfoldable pub session : Server → List Call → Outcome (List Response)
  session s [] = done []
  session s (call ∷ calls) = do
    (s1, response) ← perform s call
    responses ← session s1 calls
    done (response ∷ responses)
