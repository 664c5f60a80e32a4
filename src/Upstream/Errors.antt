-- ===== src/Upstream/Errors.antt =====
-- `read_bounded_error` of proxy/src/server/upstream.rs: the text of an upstream's error. The body
-- is the list of its chunks, each the bytes that arrived or the network's error, and `decode`
-- stands for `String::from_utf8_lossy` of the standard library.
pub mod Bounds
use free_claude_desktop.Prelude.{
  ℕ, zero, suc, ◌*◌, ◌-◌, String, List, [], ◌∷◌, ◌++◌, length, eqb, ltb, if◌then◌else◌, Result, ok,
  err,
}
use free_claude_desktop.Stream.Lines.{Bytes}

abbrev pub max_upstream_error_bytes : ℕ
max_upstream_error_bytes = 64 * 1024

-- `&bytes[..n]`
abbrev pub take : ℕ → Bytes → Bytes
take zero bytes = []
take (suc n) [] = []
take (suc n) (b ∷ bytes) = b ∷ take n bytes

-- `m.min(n)`
abbrev pub min : ℕ → ℕ → ℕ
min m n = if ltb n m then n else m

abbrev pub extended : ℕ → Bytes → Bytes → Bytes
extended limit bytes chunk = bytes ++ take (min (length chunk) (limit - length bytes)) chunk

-- The loop over the chunks, with the bytes that were read before.
unfoldable pub read_bounded : ℕ → Bytes → List (Result Bytes String) → Bytes
read_bounded limit bytes [] = bytes
read_bounded limit bytes (err error ∷ chunks) = bytes
read_bounded limit bytes (ok chunk ∷ chunks) =
    let longer = extended limit bytes chunk in
    let later = read_bounded limit longer chunks in
    if eqb (length longer) limit then longer else later

unfoldable pub read_bounded_error : (Bytes → String) → List (Result Bytes String) → String
read_bounded_error decode chunks = decode (read_bounded max_upstream_error_bytes [] chunks)
