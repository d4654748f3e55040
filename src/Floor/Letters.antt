-- ===== src/Floor/Letters.antt =====
-- Letters one after the other, and the frames that hold them.
use sim_tools.Base.{◌≡◌, refl, List, [], ◌∷◌, ◌++◌, arith}
use sim_tools.Base.Bytes.{Bytes, bytes_eq}
use sim_tools.Core.Text.{string_to_zmq_msg}
use sim_tools.Core.Envelope.{Encodes}
use sim_tools.Cluster.Worker.{identity}
use sim_tools.Floor.Run.{Letter, HoldsRouted, HoldsDealt}
use sim_tools.Floor.View.{Sends}

pub HoldsRouted-append :
    (a b : List Letter) (fs gs : List Bytes)
    → HoldsRouted a fs
    → HoldsRouted b gs
    → HoldsRouted (a ++ b) (fs ++ gs)
HoldsRouted-append [] b fs gs h k = rw h k
HoldsRouted-append (l ∷ a) b fs gs (id, f, rest, e, enc, more) k =
    (id, f, rest ++ gs, rw e refl, enc, HoldsRouted-append a b rest gs more k)

pub HoldsDealt-append :
    (a b : List Letter) (fs gs : List Bytes)
    → HoldsDealt a fs
    → HoldsDealt b gs
    → HoldsDealt (a ++ b) (fs ++ gs)
HoldsDealt-append [] b fs gs h k = rw h k
HoldsDealt-append (l ∷ a) b fs gs (f, rest, e, enc, more) k =
    (f, rest ++ gs, rw e refl, enc, HoldsDealt-append a b rest gs more k)

pub Sends-append :
    (a : List Letter) (l : Letter) (f : Bytes) (log : List (List Bytes))
    → Sends a log
    → Encodes f l.envelope
    → Sends (a ++ l ∷ []) (log ++ (f ∷ l.payload ∷ []) ∷ [])
Sends-append [] l f log h enc = rw h (f, [], refl, enc, refl)
Sends-append (m ∷ a) l f log (g, rest, e, enc', more) enc =
    (g, rest ++ (f ∷ l.payload ∷ []) ∷ [], rw e refl, enc', Sends-append a l f rest more enc)

-- The broker finds a worker by the identity that the worker has set.
pub identity_test : (x y : Bytes) → bytes_eq (identity x) (string_to_zmq_msg y) ≡ bytes_eq x y
unfolding bytes_eq identity string_to_zmq_msg
identity_test [] [] = refl
identity_test [] (y ∷ []) = ground arith
identity_test [] (y ∷ z ∷ ys) = ground arith
identity_test (x ∷ []) [] = ground arith
identity_test (x ∷ z ∷ xs) [] = ground arith
identity_test (x ∷ xs) (y ∷ ys) = rw (identity_test xs ys) refl
