-- ===== src/Transfer/Laws.antt =====
-- What a download lets onto the disk.
use hermitstash_sync.Prelude.{ℕ, ◌+◌, ◌≤◌, ◌<◌, ◌≡◌, Option, none, some, List, [], ◌∷◌, arith}
use hermitstash_sync.Transfer.{
  File, Response, refused, body, landed, byte_ceiling, receive, is_verified, download_file,
}

-- Whatever the server sends, no more than the ceiling passes the counting gate.
receive-le :
    (ceiling received : ℕ) (chunks : List ℕ)
    → received ≤ ceiling
    → (receive ceiling received chunks).0 ≤ ceiling
unfolding receive
receive-le ceiling received [] h = h
receive-le ceiling received (chunk ∷ chunks) h =
    ground (arith, receive-le ceiling (received + chunk) chunks)

-- The file that lands is what was asked for: its digest is the expected one if one was given, and
-- otherwise its size is the declared one if one was declared; it fits the caller's limit and the
-- declared size.
pub record IsWanted (max_file_bytes : ℕ) (expected : Option ℕ) (wanted : ℕ) (file : File)
    : Type 0 where
  pub digest_matches : (digest : ℕ) → expected ≡ some digest → file.digest ≡ digest
  pub size_matches : expected ≡ none → 0 < wanted → file.bytes ≡ wanted
  pub fits_limit : file.bytes ≤ max_file_bytes
  pub fits_declared : 0 < wanted → file.bytes ≤ wanted

-- A download that lands has put down a file that is what was asked for.
pub download_file_landed :
    (max_file_bytes : ℕ) (r : Response) (expected : Option ℕ) (wanted : ℕ) (file : File)
    → download_file max_file_bytes r expected wanted ≡ landed file
    → IsWanted max_file_bytes expected wanted file
unfolding download_file is_verified
download_file_landed limit refused expected wanted file h = ground arith
download_file_landed limit (body b) expected wanted file h =
    let bound = receive-le (byte_ceiling limit wanted) 0 b.chunks (omega arith) in
    record {
      digest_matches = λ d e. ground arith;
      size_matches = λ e w. ground arith;
      fits_limit = ground (arith, bound);
      fits_declared = λ w. ground (arith, bound);
    }
