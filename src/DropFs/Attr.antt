-- ===== src/DropFs/Attr.antt =====
-- The attributes on the wire.
use native_pipe.Base.{◌≡◌, some, ◌<◌, ◌≤◌, arith}
use native_pipe.Base.Bytes.{IsU64}
use native_pipe.DropFs.State.{DropAttr, directory, link, attr_encode, attr_decode}

-- Attributes that fit the wire.
pub record Fits (a : DropAttr) : Type 0 where
  pub kind_first : directory ≤ a.kind
  pub kind_last : a.kind ≤ link
  pub mode : a.mode < 4096
  pub size : IsU64 a.size
  pub mtime_seconds : IsU64 a.mtime_seconds
  pub mtime_nanoseconds : a.mtime_nanoseconds < 1000000000
  pub file_id : IsU64 a.file_id

-- Attributes of one of the three kinds, with permission bits as mode, less than a second of nanoseconds and
-- 64-bit numbers are read back as they were written.
pub attr_decode-attr_encode : (a : DropAttr) → Fits a → attr_decode (attr_encode a) ≡ some a
unfolding attr_decode attr_encode
attr_decode-attr_encode a f = ground (arith, f)
