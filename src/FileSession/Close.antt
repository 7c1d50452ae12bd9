-- ===== src/FileSession/Close.antt =====
-- np_file2_session_close: the part after both threads are joined and no write is left.
pub mod Freed
pub mod Kept
use native_pipe.Base.{ℕ, ◌≡◌, Bool, true, false, List, [], ◌∷◌, ◌==◌, if◌then◌else◌}
use native_pipe.Base.Bytes.{dec32}
use native_pipe.FileSession.State.{Session, Stream, econnreset}
use native_pipe.FileSession.Streams.{fail, maybe_destroy}

-- `while (stream && !freed)` over the streams in their order; a stream that goes does not change
-- those after it.
unfoldable pub sweep : List Stream → Session → Session × Bool
unfolding maybe_destroy
sweep [] s = (s, false)
sweep (t ∷ ts) s =
    let (u, freed) = maybe_destroy s t in let rest = sweep ts u in if freed then (u, true) else rest

-- The flag says that free_session follows.
unfoldable pub close_session : Session → Session × Bool
close_session s =
    let (u, freed) = sweep s.streams (record s { owner_closed = true }) in
    if freed
    then (u, true)
    else (record u { references = dec32 u.references }, dec32 u.references == 0)

-- np_file2_session_close where no other call comes in between.
unfoldable pub close : Session → Session × Bool
close s = close_session (fail s econnreset)
