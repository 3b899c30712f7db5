-- ===== src/StateDb/Meta.antt =====
-- lib/state-db.js: the key/value table `sync_state`, the cursor kept in it, and `clearAll`.
use hermitstash_sync.Prelude.{
  ℕ, ◌≡◌, refl, ◌∙◌, false, Option, none, some, List, [], ◌∷◌, arith, if◌then◌else◌, Text, same,
  same_iff, codes, ap,
}
use hermitstash_sync.StateDb.Rows.{Files}
use hermitstash_sync.StateDb.Decimal.{print, parse_natural, parse_natural-print}

abbrev pub Meta : Type 0
Meta = List (Text × Text)

-- Both tables.
pub record Db : Type 0 where
  pub files : Files
  pub sync_state : Meta

-- `getMeta`
unfoldable pub get_meta : Text → Meta → Option Text
get_meta key [] = none
get_meta key ((k, value) ∷ meta) = if same k key then some value else get_meta key meta

-- `setMeta`: INSERT … ON CONFLICT(key) DO UPDATE SET value.
unfoldable pub set_meta : Text → Text → Meta → Meta
set_meta key value [] = (key, value) ∷ []
set_meta key value ((k, v) ∷ meta) =
    if same k key then (key, value) ∷ meta else (k, v) ∷ set_meta key value meta

abbrev pub last_seq_key : Text
last_seq_key = codes "last_seq"

abbrev pub last_sync_time_key : Text
last_sync_time_key = codes "last_sync_time"

abbrev pub or_zero : Option ℕ → ℕ
or_zero none = 0
or_zero (some n) = n

-- `parseInt(getMeta('last_seq'), 10)`, clamped to a natural number; null reads as NaN.
abbrev pub read_seq : Option Text → ℕ
read_seq none = 0
read_seq (some value) = or_zero (parse_natural value)

-- `getLastSeq`
unfoldable pub get_last_seq : Meta → ℕ
get_last_seq meta = read_seq (get_meta last_seq_key meta)

-- `setLastSeq`; `none` stands for a cursor that is not finite or is negative, which is refused.
unfoldable pub set_last_seq : Option ℕ → Meta → Meta
set_last_seq none meta = meta
set_last_seq (some seq) meta = set_meta last_seq_key (print seq) meta

-- `clearAll`: both tables in one transaction; the statements of the model do not fail.
unfoldable pub clear_all : Db → Db
clear_all db = record { files = []; sync_state = [] }

pub get_meta-set_meta :
    (key at value : Text) (meta : Meta)
    → get_meta key (set_meta at value meta)
      ≡ (if same at key then some value else get_meta key meta)
unfolding get_meta set_meta
get_meta-set_meta key at value [] = refl
get_meta-set_meta key at value ((k, v) ∷ meta) =
    ground
      (arith, same_iff k at, same_iff k key, same_iff at key, get_meta-set_meta key at value meta)

-- Whatever the table held, also a mangled value, the cursor that is stored is the cursor that is read
-- back.
pub get_last_seq-set_last_seq :
    (seq : ℕ) (meta : Meta) → get_last_seq (set_last_seq (some seq) meta) ≡ seq
unfolding get_last_seq set_last_seq same
get_last_seq-set_last_seq seq meta =
    ap read_seq (get_meta-set_meta last_seq_key last_seq_key (print seq) meta)
    ∙ ap or_zero (parse_natural-print seq)

-- A write under another key leaves the cursor alone.
pub get_last_seq-set_meta :
    (key value : Text) (meta : Meta)
    → same key last_seq_key ≡ false
    → get_last_seq (set_meta key value meta) ≡ get_last_seq meta
unfolding get_last_seq
get_last_seq-set_meta key value meta other =
    ap read_seq (get_meta-set_meta last_seq_key key value meta ∙ rw other)

pub get_last_seq-clear_all : (db : Db) → get_last_seq (clear_all db).sync_state ≡ 0
unfolding get_last_seq clear_all get_meta
get_last_seq-clear_all db = refl
