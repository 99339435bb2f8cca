-- ===== src/Ingest/Limits.antt =====
-- backend/app/ingest/limits.py. The state is the part of the stream that has not been read.
pub mod Bounds
use counselready.Common.{
  ℕ, ◌*◌, Bool, true, false, Option, none, some, List, [], ◌∷◌, ◌++◌, length, ltb, if◌then◌else◌,
}
use counselready.Effects.Exceptions.{upload_too_large, empty_upload}
use counselready.Effects.Action.{Action, Result, ok, err, ◌>>=◌, ◌>>◌, pure, raise_if}
use counselready.Effects.Library.{Bytes}

abbrev pub default_max_upload_bytes : ℕ
default_max_upload_bytes = 100 * 1024 * 1024

-- `declared_length is not None and declared_length > max_bytes`
abbrev pub is_declared_too_large : ℕ → Option ℕ → Bool
is_declared_too_large max_bytes none = false
is_declared_too_large max_bytes (some declared_length) = ltb max_bytes declared_length

abbrev pub is_empty : Bytes → Bool
is_empty [] = true
is_empty (b ∷ bs) = false

-- The loop, from the buffer that it has filled so far.
unfoldable pub read_chunks : ℕ → Bytes → List Bytes → Result Bytes × List Bytes
read_chunks max_bytes buffer [] = (ok buffer, [])
read_chunks max_bytes buffer (chunk ∷ chunks) =
    let rest = read_chunks max_bytes (buffer ++ chunk) chunks in
    if ltb max_bytes (length (buffer ++ chunk))
    then (err (upload_too_large max_bytes), chunks)
    else rest

-- `if not buffer: raise …`, else the bytes
unfoldable pub refuse_empty : Bytes → Action (List Bytes) Bytes
refuse_empty buffer = do raise_if (is_empty buffer) empty_upload; pure buffer

unfoldable pub read_bounded : ℕ → Option ℕ → Action (List Bytes) Bytes
read_bounded max_bytes declared_length = do
  raise_if (is_declared_too_large max_bytes declared_length) (upload_too_large max_bytes)
  buffer ← read_chunks max_bytes []
  refuse_empty buffer
