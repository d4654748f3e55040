-- ===== src/Core/Doubles.antt =====
-- The double arithmetic of the task payloads, which the machine provides, and the two payloads
-- made of it: TaskRequest, an array of 1024 doubles, and TaskReply, their sum.
use sim_tools.Base.{
  ◌*◌, arith, length-append, take-append, drop-append, ℕ, zero, suc, ◌≡◌, refl, ap, List, [], ◌∷◌,
  ◌++◌, length, take, drop, replicate, leb,
}
use sim_tools.Base.Bytes.{Bytes}
use sim_tools.Base.Outcome.{Outcome, done, ◌>>◌, in_bounds}

-- A double is 8 bytes. `per_mille n` is n / 1000.0 and `per_hundred n` is n / 100.0.
pub record Doubles : Type 1 where
  pub Double : Type 0
  pub zero_double : Double
  pub add : Double → Double → Double
  pub per_mille : ℕ → Double
  pub per_hundred : ℕ → Double
  pub to_bytes : Double → Bytes
  pub of_bytes : Bytes → Double
  pub to_bytes-length : (d : Double) → length (to_bytes d) ≡ 8
  pub of_bytes-to_bytes : (d : Double) → of_bytes (to_bytes d) ≡ d

abbrev pub request_size : ℕ
request_size = 1024

abbrev pub sizeof_request : ℕ
sizeof_request = 8192

abbrev pub sizeof_reply : ℕ
sizeof_reply = 8

-- The bytes of an array of zeros.
unfoldable pub zero_bytes : ℕ → Bytes
zero_bytes n = replicate n 0

length-replicate : (n : ℕ) → length (replicate n zero) ≡ n
length-replicate zero = refl
length-replicate (suc n) = ap suc (length-replicate n)

pub length-zero_bytes : (n : ℕ) → length (zero_bytes n) ≡ n
unfolding zero_bytes
length-zero_bytes n = length-replicate n

module _ (D : Doubles) where
  open D use {Double, zero_double, add, to_bytes, of_bytes}

  unfoldable pub doubles_of : ℕ → Bytes → List Double
  doubles_of zero b = []
  doubles_of (suc n) b = of_bytes (take 8 b) ∷ doubles_of n (drop 8 b)

  unfoldable pub bytes_of : List Double → Bytes
  bytes_of [] = []
  bytes_of (d ∷ ds) = to_bytes d ++ bytes_of ds

  -- memcpy(&taskReq, msg.data(), msg.size()) over a fresh TaskRequest.
  unfoldable pub load_request : Bytes → Outcome (List Double)
  load_request msg = do
    in_bounds (leb (length msg) sizeof_request)
    done (doubles_of request_size (msg ++ drop (length msg) (zero_bytes sizeof_request)))

  -- memcpy(&taskReply, msg.data(), msg.size()) over a fresh TaskReply.
  unfoldable pub load_reply : Bytes → Outcome Double
  load_reply msg = do
    in_bounds (leb (length msg) sizeof_reply)
    done (of_bytes (msg ++ drop (length msg) (to_bytes zero_double)))

  -- sum += arr[i], from the first element to the last.
  unfoldable pub sum_from : Double → List Double → Double
  sum_from sum [] = sum
  sum_from sum (d ∷ ds) = sum_from (add sum d) ds

module _ (D : Doubles) where
  -- The array has the size of its elements, and is read as it was written.
  pub length-bytes_of : (ds : List D.Double) → length (bytes_of D ds) ≡ 8 * length ds
  unfolding bytes_of
  length-bytes_of [] = refl
  length-bytes_of (d ∷ ds) =
      omega (
        arith,
        length-append (D.to_bytes d) (bytes_of D ds),
        D.to_bytes-length d,
        length-bytes_of ds,
      )

  pub doubles_of-bytes_of : (ds : List D.Double) → doubles_of D (length ds) (bytes_of D ds) ≡ ds
  unfolding doubles_of bytes_of
  doubles_of-bytes_of [] = refl
  doubles_of-bytes_of (d ∷ ds) = rw (
    take-append 8 (D.to_bytes d) (bytes_of D ds) (D.to_bytes-length d),
    drop-append 8 (D.to_bytes d) (bytes_of D ds) (D.to_bytes-length d),
    D.of_bytes-to_bytes d,
    doubles_of-bytes_of ds,
  )
