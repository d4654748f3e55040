-- ===== src/Core/Text.antt =====
-- MessageHelper of cluster_core.cpp: strings, char arrays and message frames.
use sim_tools.Base.{
  ℕ, zero, suc, ◌+◌, ◌-◌, ◌%◌, ◌^◌, [], ◌∷◌, ◌++◌, leb, ltb, length, set, take, drop,
}
use sim_tools.Base.Bytes.{Bytes}
use sim_tools.Base.Outcome.{Outcome, done, fault, thrown, ◌>>=◌, ◌>>◌, in_bounds}
use sim_tools.Core.Types.{k_max_name_size, k_buffer_size_1024}

-- stringToZMQMsg: the bytes of the string and the NUL behind them.
unfoldable pub string_to_zmq_msg : Bytes → Bytes
string_to_zmq_msg payload = payload ++ 0 ∷ []

-- ZMQMsgToString: all bytes but the last. For a frame with no byte `size() - 1` is the largest
-- size_t, at which the constructor of std::string throws.
unfoldable pub zmq_msg_to_string : Bytes → Outcome Bytes
zmq_msg_to_string [] = thrown
zmq_msg_to_string (b ∷ bs) = done (take (length bs) (b ∷ bs))

-- swapBuffer, through a temporary of 1024 bytes.
unfoldable pub swap_buffer : Bytes → Bytes → ℕ → Outcome (Bytes × Bytes)
swap_buffer buffer1 buffer2 max_size = do
  in_bounds (leb max_size k_buffer_size_1024)
  in_bounds (leb max_size (length buffer1))
  in_bounds (leb max_size (length buffer2))
  done (
    take max_size buffer2 ++ drop max_size buffer1,
    take max_size buffer1 ++ drop max_size buffer2,
  )

-- copyStringToBuffer: the string and its NUL are copied whole, whatever maxBufferSize is, and then
-- the byte at the uint32_t index maxBufferSize - 1 is cleared.
unfoldable pub copy_string_to_buffer : Bytes → Bytes → ℕ → Outcome Bytes
copy_string_to_buffer buffer str max_buffer_size = do
  in_bounds (leb (length str + 1) (length buffer))
  let last = (max_buffer_size + 2 ^ 32 - 1) % 2 ^ 32
  in_bounds (ltb last (length buffer))
  done (set (str ++ 0 ∷ drop (length str + 1) buffer) last 0)

-- The default argument of copyStringToBuffer.
abbrev pub copy_name : Bytes → Bytes → Outcome Bytes
copy_name buffer str = copy_string_to_buffer buffer str k_max_name_size

-- std::string(buffer): the bytes up to the first NUL. Without a NUL the read leaves the array.
unfoldable pub c_string : Bytes → Outcome Bytes
c_string [] = fault
c_string (zero ∷ rest) = done []
c_string (suc c ∷ rest) = do let tail = c_string rest; s ← tail; done (suc c ∷ s)
