-- ===== src/Engine/Walk.antt =====
-- lib/sync-engine.js: _walkDir, the walk of the sync folder. Names are without '\'.
pub mod Found
use hermitstash_sync.Prelude.{
  ℕ, Bool, true, false, ◌&&◌, ◌||◌, Option, none, some, List, [], ◌∷◌, ◌++◌, if◌then◌else◌, ltb,
  leb, length, Text, codes,
}
use hermitstash_sync.PathFilter.{starts_with, is_ignored}
use hermitstash_sync.StateDb.Decimal.{is_digit}
use hermitstash_sync.Engine.State.{World}

-- What readdirSync and lstatSync show of a directory: its files, its directories with what is in them,
-- and what is neither, a symbolic link or an entry that lstat cannot read.
mutual
  pub data Folder : Type 0 where
    unreadable : Folder
    readable : Entries → Folder

  pub data Entries : Type 0 where
    no_more : Entries
    file : Text → Entries → Entries
    folder : Text → Folder → Entries → Entries
    other : Entries → Entries

abbrev is_hex : ℕ → Bool
is_hex c = is_digit c || (leb b'a' c && leb c b'f')

abbrev all_hex : Text → Bool
all_hex [] = true
all_hex (c ∷ s) = is_hex c && all_hex s

abbrev dot_tmp : Text
dot_tmp = codes ".tmp."

abbrev after_dot_tmp : Text → Text
after_dot_tmp (a ∷ b ∷ c ∷ d ∷ f ∷ s) = s
after_dot_tmp _ = []

abbrev ends_temp : Text → Bool
ends_temp s =
    let tail = after_dot_tmp s in starts_with s dot_tmp && all_hex tail && leb 8 (length tail)

-- TEMP_FILE_RE.test(name): /\.tmp\.[0-9a-f]{8,}$/
unfoldable pub is_temp_name : Text → Bool
is_temp_name [] = false
is_temp_name (c ∷ s) = ends_temp (c ∷ s) || is_temp_name s

-- The watcher's test on a directory.
unfoldable pub is_ignored_dir : World → Text → Bool
is_ignored_dir w dir = is_ignored w.runtime dir w.ignore w.fs_case_folds

abbrev pub slash : Text
slash = codes "/"

-- A walk that throws is `none`.
abbrev pub append_found : Option (List Text) → Option (List Text) → Option (List Text)
append_found none b = none
append_found (some ps) none = none
append_found (some ps) (some qs) = some (ps ++ qs)

-- `_walkDir`, of the directory whose path with its last '/' is `prefix`.
unfoldable mutual
  pub walk_dir : World → Text → Folder → Option (List Text)
  walk_dir w prefix unreadable = none
  walk_dir w prefix (readable entries) = walk_entries w prefix entries

  pub walk_entries : World → Text → Entries → Option (List Text)
  walk_entries w prefix no_more = some []
  walk_entries w prefix (file name entries) =
      append_found (some (if is_temp_name name then [] else (prefix ++ name) ∷ []))
        (walk_entries w prefix entries)
  walk_entries w prefix (folder name inside entries) =
      let below = walk_dir w ((prefix ++ name) ++ slash) inside in
      append_found (if is_ignored_dir w (prefix ++ name) then some [] else below)
        (walk_entries w prefix entries)
  walk_entries w prefix (other entries) = walk_entries w prefix entries
