-- ===== src/Core/Names.antt =====
-- What holds of the string helpers of MessageHelper on names that fit into a name buffer.
use sim_tools.Base.{
  ℕ, zero, suc, ◌+◌, ◌≤◌, ◌<◌, ◌≡◌, refl, ap, [], ◌∷◌, ◌++◌, All, arith, length, set, drop,
  length-append, length-set, length-drop, All-append, All-drop, All-set, take-append, drop-length,
  take-length, append-nil, le→leb, ◌↔◌,
}
use sim_tools.Base.Bytes.{Bytes, IsByte}
use sim_tools.Base.Outcome.{Outcome, done, blocked, fault, thrown, ◌>>=◌}
use sim_tools.Core.Types.{IsBuffer}
use sim_tools.Core.Text.{
  string_to_zmq_msg, zmq_msg_to_string, swap_buffer, copy_string_to_buffer, copy_name, c_string,
}

-- A character of a C string.
abbrev pub IsChar : ℕ → Type 0
IsChar c = (0 < c) × (c < 256)

-- A string that a name buffer of 32 bytes can hold.
pub record IsName (s : Bytes) : Type 0 where
  pub chars : All IsChar s
  pub fits : length s < 32

bytes_of_chars : (s : Bytes) → All IsChar s → All IsByte s
bytes_of_chars [] h = tt
bytes_of_chars (c ∷ s) h = (h.0.1, bytes_of_chars s h.1)

c_string-set :
    (s rest : Bytes) (i : ℕ)
    → All IsChar s
    → length s ≤ i
    → c_string (set (s ++ 0 ∷ rest) i 0) ≡ done s
unfolding c_string
c_string-set [] rest zero h l = refl
c_string-set [] rest (suc i) h l = refl
c_string-set (c ∷ s) rest zero h l = absurd (omega arith)
c_string-set (zero ∷ s) rest (suc i) h l = absurd (omega arith)
c_string-set (suc c ∷ s) rest (suc i) h l = rw (c_string-set s rest i h.1 (omega arith))

-- The array that copyStringToBuffer leaves behind.
copied : Bytes → Bytes → Bytes
copied buffer s = set (s ++ 0 ∷ drop (length s + 1) buffer) 31 0

copy_name-eq :
    (buffer s : Bytes)
    → length buffer ≡ 32
    → length s < 32
    → copy_name buffer s ≡ done (copied buffer s)
unfolding copy_string_to_buffer copied
copy_name-eq buffer s b l = rw (le→leb (length s + 1) (length buffer) (omega arith), b)

copied-IsBuffer : (buffer s : Bytes) → IsBuffer 32 buffer → IsName s → IsBuffer 32 (copied buffer s)
unfolding copied
copied-IsBuffer buffer s b n = (
  omega (
    arith,
    length-set (s ++ 0 ∷ drop (length s + 1) buffer) 31 0,
    length-append s (0 ∷ drop (length s + 1) buffer),
    length-drop (length s + 1) buffer,
    n.fits,
    b.0,
  ),
  All-set IsByte _ 31 0 (omega arith) (
      All-append IsByte s _ (bytes_of_chars s n.chars)
        (omega arith, All-drop IsByte (length s + 1) buffer b.1)),
)

-- Copying a name into a buffer succeeds, and reading the buffer gives the name back.
pub copy_name-done :
    (buffer s : Bytes)
    → IsBuffer 32 buffer
    → IsName s
    → (b : Bytes) × (copy_name buffer s ≡ done b) × IsBuffer 32 b × (c_string b ≡ done s)
unfolding copied
copy_name-done buffer s b n = (
  copied buffer s,
  copy_name-eq buffer s b.0 n.fits,
  copied-IsBuffer buffer s b n,
  c_string-set s _ 31 n.chars (omega (arith, n.fits)),
)

-- copyStringToBuffer on a name buffer faults exactly on the strings of 32 bytes and more: its
-- argument maxBufferSize does not limit what it copies.
pub copy_name-fault :
    (buffer s : Bytes) → length buffer ≡ 32 → (copy_name buffer s ≡ fault) ↔ (32 ≤ length s)
unfolding copy_string_to_buffer
copy_name-fault buffer s b = (λ h. ground arith, λ h. ground arith)

-- What a bind gives comes from what its first part gives.
>>=-eq-done :
    (m : Outcome Bytes) (c : ℕ) (s : Bytes)
    → (m >>= λ r. done (c ∷ r)) ≡ done s
    → (r : Bytes) × (m ≡ done r) × (s ≡ c ∷ r)
>>=-eq-done (done r) c s e = (r, refl, ground arith)
>>=-eq-done blocked c s e = cc
>>=-eq-done fault c s e = cc
>>=-eq-done thrown c s e = cc

-- What is read from a name buffer is a name.
c_string-chars :
    (n : ℕ) (b s : Bytes)
    → All IsByte b
    → length b ≤ n
    → c_string b ≡ done s
    → All IsChar s × (length s < n)
unfolding c_string
c_string-chars n [] s h l e = cc
c_string-chars n (zero ∷ b) s h l e = ground arith
c_string-chars zero (suc c ∷ b) s h l e = absurd (omega arith)
c_string-chars (suc n) (suc c ∷ b) s h l e =
    let (r, p, q) = >>=-eq-done (c_string b) (suc c) s e in
    let rest = c_string-chars n b r h.1 (omega arith) p in
    rw q ((omega arith, rest.0), omega (arith, rest.1))

pub c_string-IsName : (b s : Bytes) → IsBuffer 32 b → c_string b ≡ done s → IsName s
c_string-IsName b s h e =
    let facts = c_string-chars 32 b s h.1 (omega arith) e in
    record { chars = facts.0; fits = facts.1 }

-- A string sent by stringToZMQMsg is what ZMQMsgToString reads, NUL bytes in it included.
pub zmq_msg-roundtrip : (s : Bytes) → zmq_msg_to_string (string_to_zmq_msg s) ≡ done s
unfolding string_to_zmq_msg zmq_msg_to_string
zmq_msg-roundtrip [] = refl
zmq_msg-roundtrip (c ∷ s) =
    ap done (
      take-append (length (s ++ 0 ∷ [])) (c ∷ s) (0 ∷ []) (omega (arith, length-append s (0 ∷ []))))

-- swapBuffer exchanges two name buffers.
pub swap_buffer_lem :
    (a b : Bytes) → length a ≡ 32 → length b ≡ 32 → swap_buffer a b 32 ≡ done (b, a)
unfolding swap_buffer
swap_buffer_lem a b p q =
    rw (p, q)
      (rw (
        take-length 32 a (omega arith),
        take-length 32 b (omega arith),
        drop-length 32 a (omega arith),
        drop-length 32 b (omega arith),
        append-nil b,
        append-nil a,
      ))
