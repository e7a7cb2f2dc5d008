-- ===== src/Server/Files.antt =====
-- `mime_for` and `file_response` of src/server/server.cpp. What a file system shows at one time is the
-- parameter `Files`.
pub mod Guard
pub mod Revalidate
use deltafeedback.Prelude.{
  ℕ, ◌-◌, ◌^◌, Bool, true, false, not, ◌&&◌, ◌||◌, List, [], ◌∷◌, ◌++◌, Option, none, some, Bytes,
  codes, bytes_eq, is_empty, length, take, ltb, ◌==◌, if◌then◌else◌, ℤ, Result,
}
use deltafeedback.Pow.Decimal.{to_string, i64_to_str}

-- By a path: `std::filesystem::weakly_canonical`, which throws if it cannot resolve the path,
-- `file_size`, the ticks of `last_write_time`, and what a stream reads if it opens.
pub record Files : Type 0 where
  pub weakly_canonical : Bytes → Option Bytes
  pub file_size : Bytes → Option ℕ
  pub last_write_time : Bytes → Option ℤ
  pub contents : Bytes → Option Bytes

abbrev pub Header : Type 0
Header = Bytes × Bytes

pub record FileResponse : Type 0 where
  pub status : ℕ
  pub headers : List Header
  pub body : Bytes

-- The text from the last dot on.
unfoldable pub extension : Bytes → Option Bytes
extension [] = none
extension (c ∷ s) = elim (extension s) [
  | some ext ↦ some ext
  | none ↦ if c == b'.' then some (c ∷ s) else none
]

abbrev pub octet_stream : Bytes
octet_stream = codes "application/octet-stream"

abbrev pub mime_of : Option Bytes → Bytes
mime_of none = octet_stream
mime_of (some ext) =
    if bytes_eq ext (codes ".html")
    then codes "text/html; charset=utf-8"
    else if bytes_eq ext (codes ".css")
    then codes "text/css; charset=utf-8"
    else if bytes_eq ext (codes ".js")
    then codes "application/javascript; charset=utf-8"
    else if bytes_eq ext (codes ".json")
    then codes "application/json; charset=utf-8"
    else if bytes_eq ext (codes ".svg")
    then codes "image/svg+xml"
    else if bytes_eq ext (codes ".png")
    then codes "image/png"
    else if bytes_eq ext (codes ".ico")
    then codes "image/x-icon"
    else octet_stream

unfoldable pub mime_for : Bytes → Bytes
unfolding extension
mime_for path = mime_of (extension path)

-- `root / rel` on paths: an absolute path replaces the root.
abbrev pub is_absolute : Bytes → Bool
is_absolute [] = false
is_absolute (c ∷ s) = c == b'/'

unfoldable pub has_filename : Bytes → Bool
has_filename [] = false
has_filename (c ∷ []) = not (c == b'/')
has_filename (c ∷ d ∷ s) = has_filename (d ∷ s)

unfoldable pub path_join : Bytes → Bytes → Bytes
unfolding has_filename
path_join root rel =
    if is_absolute rel then rel else if has_filename root then root ++ b'/' ∷ rel else root ++ rel

-- The test that blocks a traversal.
unfoldable pub outside : Bytes → Bytes → Bool
outside full root = ltb (length full) (length root) || not (bytes_eq (take (length root) full) root)

abbrev pub not_found : FileResponse
not_found = record { status = 404; headers = []; body = [] }

abbrev pub etag_name : Bytes
etag_name = codes "ETag"

abbrev pub no_cache : Header
no_cache = (codes "Cache-Control", codes "no-cache")

unfoldable pub etag_of : ℤ → ℕ → Bytes
etag_of ticks size = b'"' ∷ (i64_to_str ticks ++ b'-' ∷ (to_string size ++ b'"' ∷ []))

abbrev pub not_modified : Bytes → FileResponse
not_modified etag = record { status = 304; headers = (etag_name, etag) ∷ no_cache ∷ []; body = [] }

abbrev pub served : Bytes → Bytes → Option Bytes → FileResponse
served full etag none = not_found
served full etag (some text) = record {
  status = 200;
  headers = (codes "Content-Type", mime_for full) ∷ no_cache ∷ (etag_name, etag) ∷ [];
  body = text;
}

-- `file_size` answers the largest `uintmax_t` when it fails; the call after it resets the error code.
abbrev pub size_or_max : Option ℕ → ℕ
size_or_max none = 2 ^ 64 - 1
size_or_max (some n) = n

-- From the test of the error code on.
unfoldable pub answer_file : Files → Bytes → Bytes → Option ℤ → FileResponse
answer_file fs full inm none = not_found
answer_file fs full inm (some ticks) =
    let etag = etag_of ticks (size_or_max (fs.file_size full)) in
    if not (is_empty inm) && bytes_eq inm etag
    then not_modified etag
    else served full etag (fs.contents full)

abbrev pub guarded : Files → Bytes → Option Bytes → Option Bytes → Result FileResponse
guarded fs inm (some full) (some root) =
    Result.ok
      (if outside full root then not_found else answer_file fs full inm (fs.last_write_time full))
guarded fs inm _ _ = Result.throw

-- `inm` is the value of the header If-None-Match.
unfoldable pub file_response : Files → Bytes → Bytes → Bytes → Result FileResponse
unfolding path_join outside answer_file
file_response fs root rel inm =
    guarded fs inm (fs.weakly_canonical (path_join root rel)) (fs.weakly_canonical root)
