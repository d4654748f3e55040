-- ===== src/Cluster/Traffic.antt =====
-- The frames that sockets give to LocalBalanceBroker on well-formed traffic.
use sim_tools.Base.{List, [], ◌∷◌, ◌++◌}
use sim_tools.Base.Bytes.{Bytes}
use sim_tools.Core.Envelope.{Envelope, Encodes}

-- Frames in groups of three, as a router socket gives them: an identity, a task's metadata and a
-- payload.
pub data Routed : List Bytes → Type 0 where
  none_left : Routed []
  message :
      {id f p : Bytes} {rest : List Bytes} {e : Envelope}
      → Encodes f e
      → Routed rest
      → Routed (id ∷ f ∷ p ∷ rest)

-- Frames in groups of two, as a dealer socket gives them.
pub data Dealt : List Bytes → Type 0 where
  none_left : Dealt []
  message :
      {f p : Bytes} {rest : List Bytes} {e : Envelope}
      → Encodes f e
      → Dealt rest
      → Dealt (f ∷ p ∷ rest)

pub Routed-append : {xs ys : List Bytes} → Routed xs → Routed ys → Routed (xs ++ ys)
Routed-append Routed.none_left r = r
Routed-append (Routed.message enc l) r = Routed.message enc (Routed-append l r)

pub Dealt-append : {xs ys : List Bytes} → Dealt xs → Dealt ys → Dealt (xs ++ ys)
Dealt-append Dealt.none_left r = r
Dealt-append (Dealt.message enc l) r = Dealt.message enc (Dealt-append l r)
