-- ===== src/Files.antt =====
-- guest/common/np.c: the loops that read and write all bytes. The answers of the system are a list: a
-- call takes the next one, and a call without an answer waits.
pub mod Whole
mod Tests
use native_pipe.Base.{ℕ, ◌+◌, ◌-◌, List, [], ◌∷◌, ◌++◌, ltb, if◌then◌else◌, length, take, drop}

-- What write says: how many bytes it took, EINTR, or another error.
pub data WriteAnswer : Type 0 where
  wrote : ℕ → WriteAnswer
  write_interrupted : WriteAnswer
  write_error : WriteAnswer

-- How np_write_full stands after these answers, with the bytes that were taken.
pub data WriteResult : Type 0 where
  write_done : List ℕ → WriteResult
  write_failed : List ℕ → WriteResult
  write_waits : List ℕ → WriteResult

-- np_write_full with `n - sent` bytes left and the bytes already taken; write takes no more than it is
-- given.
unfoldable pub write_full : List WriteAnswer → List ℕ → List ℕ → WriteResult
write_full answers sent [] = write_done sent
write_full [] sent (b ∷ left) = write_waits sent
write_full (write_interrupted ∷ answers) sent (b ∷ left) = write_full answers sent (b ∷ left)
write_full (write_error ∷ answers) sent (b ∷ left) = write_failed sent
write_full (wrote w ∷ answers) sent (b ∷ left) =
    write_full answers (sent ++ take w (b ∷ left)) (drop w (b ∷ left))

-- What read says: the bytes that are there, the end, EINTR, or another error.
pub data ReadAnswer : Type 0 where
  got : List ℕ → ReadAnswer
  at_end : ReadAnswer
  read_interrupted : ReadAnswer
  read_error : ReadAnswer

pub data ReadResult : Type 0 where
  read_done : List ℕ → ReadResult
  read_failed : List ℕ → ReadResult
  read_waits : List ℕ → ReadResult

-- np_read_full of `n` bytes with the buffer filled so far; read gives no more than it is asked for, and
-- `got []` is a read of 0 bytes, which is the end.
unfoldable pub read_full : List ReadAnswer → ℕ → List ℕ → ReadResult
read_full [] n buffer = if ltb (length buffer) n then read_waits buffer else read_done buffer
read_full (a ∷ answers) n buffer =
    if ltb (length buffer) n
    then elim a [
      | got bytes ↦ elim bytes [
        | [] ↦ read_failed buffer
        | b ∷ bs ↦ read_full answers n (buffer ++ take (n - length buffer) (b ∷ bs))
      ]
      | at_end ↦ read_failed buffer
      | read_interrupted ↦ read_full answers n buffer
      | read_error ↦ read_failed buffer
    ]
    else read_done buffer
