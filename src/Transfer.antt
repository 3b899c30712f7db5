-- ===== src/Transfer.antt =====
-- lib/http-client.js, downloadFile: the bounded and verified streaming of one file.
pub mod Laws
use hermitstash_sync.Prelude.{
  ℕ, zero, ◌+◌, ◌≡◌, Bool, true, false, not, ◌&&◌, Option, none, some, List, [], ◌∷◌, if◌then◌else◌,
  ltb, ◌==◌, min, not,
}

-- A file as the rest of the program tells it from others: the digest of its bytes, where equal
-- digests stand for equal bytes, its size, and whether it can be hashed (readable, regular and
-- below the size ceiling).
pub record File : Type 0 where
  pub digest : ℕ
  pub bytes : ℕ
  pub hashable : Bool
  pub mtime : ℕ

-- The body of a response: its Content-Length header, its chunks, the digest of all its bytes,
-- whether the connection breaks off, and whether and when the temporary file is moved into place.
pub record Body : Type 0 where
  pub declared : Option ℕ
  pub chunks : List ℕ
  pub digest : ℕ
  pub broken : Bool
  pub replaced : Bool
  pub now : ℕ

-- What the server sends: a refusal or a lost connection before the body, or a body.
pub data Response : Type 0 where
  refused : Response
  body : Body → Response

-- How a download ends: the file is in place, or an error, which may be permanent.
pub data Fetch : Type 0 where
  landed : File → Fetch
  failed : Bool → Fetch

-- The ceiling of one transfer.
abbrev pub byte_ceiling : ℕ → ℕ → ℕ
byte_ceiling max_file_bytes wanted =
    if ltb 0 wanted
    then (if ltb wanted max_file_bytes then wanted else max_file_bytes)
    else max_file_bytes

-- The counting gate: the chunks that pass it, in bytes, and whether one crossed the ceiling.
unfoldable pub receive : ℕ → ℕ → List ℕ → ℕ × Bool
receive ceiling received [] = (received, false)
receive ceiling received (chunk ∷ chunks) =
    let rest = receive ceiling (received + chunk) chunks in
    if ltb ceiling (received + chunk) then (received, true) else rest

-- `Number.isFinite(declared) && declared > byteCeiling`
abbrev over_declared : Option ℕ → ℕ → Bool
over_declared none ceiling = false
over_declared (some declared) ceiling = ltb ceiling declared

-- The test on 'finish': the digest if the caller knows one, else the exact size if it is declared.
unfoldable pub is_verified : Option ℕ → ℕ → ℕ → ℕ → Bool
is_verified (some expected) wanted digest received = digest == expected
is_verified none wanted digest received = if ltb 0 wanted then received == wanted else true

-- `downloadFile`
unfoldable pub download_file : ℕ → Response → Option ℕ → ℕ → Fetch
download_file max_file_bytes refused expected wanted = failed false
download_file max_file_bytes (body b) expected wanted =
    let ceiling = byte_ceiling max_file_bytes wanted in
    let (received, overflow) = receive ceiling 0 b.chunks in
    if over_declared b.declared ceiling
    then failed true
    else if overflow
    then failed true
    else if b.broken
    then failed false
    else if not (is_verified expected wanted b.digest received)
    then failed false
    else if b.replaced
    then landed (record { digest = b.digest; bytes = received; hashable = true; mtime = b.now })
    else failed false
