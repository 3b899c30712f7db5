-- ===== src/Engine/Local/DeleteLaws.antt =====
-- When a local delete reaches the server, and what is left of it.
use hermitstash_sync.Prelude.{
  ℕ, ◌≡◌, inl, inr, refl, Bool, true, false, not, ◌||◌, Option, none, some, List, [], ◌∷◌, ◌++◌,
  arith, if◌then◌else◌, Bool-cases, is_some, Text, same, same_iff, same_refl,
}
use hermitstash_sync.StateDb.Rows.{Row, get_file, pending_delete}
use hermitstash_sync.StateDb.Laws.{get_file-remove_file, get_file-update_file_status, with_status}
use hermitstash_sync.Engine.State.{
  Engine, World, Pending, delete_request, identity_key, lookup_tracked, is_disconnected,
}
use hermitstash_sync.Engine.Suppress.{is_suppressed}
use hermitstash_sync.Engine.Local.Delete.{
  Outcome, deleted, skipped, failed, set_pending, get_pending, pending_of, handle_local_delete,
  target_of, delete_key, is_back, send_delete, execute_delete_locked, execute_delete,
}

-- Why a request to delete was sent: the engine is live, the folder can be read, no transfer holds the
-- path, the file is not there, and the row names a server file whose bytes were here.
pub record IsJustified (w : World) (path : Text) (target : Row) (rename_fallback : Bool)
    (e : Engine) : Type 0 where
  pub id : ℕ
  pub named : target.server_file_id ≡ some id
  pub held : is_some target.local_checksum ≡ true
  pub live : (is_disconnected e.state || e.resyncing) ≡ false
  pub readable : w.root_readable ≡ true
  pub quiet : is_suppressed w path e ≡ false
  pub gone : is_back w path rename_fallback e ≡ false

-- What the outcome tells: `skipped` that nothing changed, and the others that one request was sent,
-- with the row dropped or kept as PENDING_DELETE.
pub IsOutcome : World → Text → Row → Bool → Engine → Outcome × Engine → Type 0
IsOutcome w path target rename_fallback e (skipped, e') = e' ≡ e
IsOutcome w path target rename_fallback e (deleted, e') =
    (j : IsJustified w path target rename_fallback e) × (e'.sent
      ≡ e.sent ++ (delete_request j.id ∷ []))
    × (get_file (delete_key path target) e'.db.files ≡ none)
IsOutcome w path target rename_fallback e (failed, e') =
    (j : IsJustified w path target rename_fallback e) × (e'.sent
      ≡ e.sent ++ (delete_request j.id ∷ []))
    × (get_file (delete_key path target) e'.db.files
        ≡ with_status pending_delete (get_file (delete_key path target) e.db.files))

module _ (w : World) (path : Text) (existing : Row) (rename_fallback : Bool) (e : Engine) where
  abbrev target : Row
  target = target_of w path existing e

  send_delete-IsOutcome :
      (j : IsJustified w path target rename_fallback e)
      → IsOutcome w path target rename_fallback e (send_delete w (delete_key path target) j.id e)
  unfolding send_delete IsOutcome
  send_delete-IsOutcome j = elim (Bool-cases (w.delete_ok j.id)) [
    | inl ok ↦ rw ok (
      j,
      refl,
      ground (
        arith,
        same_refl (delete_key path target),
        get_file-remove_file (delete_key path target) (delete_key path target) e.db.files,
      ),
    )
    | inr refused ↦ rw refused (
      j,
      refl,
      ground (
        arith,
        same_refl (delete_key path target),
        get_file-update_file_status (delete_key path target) (delete_key path target) pending_delete
            e.db.files,
      ),
    )
  ]

  abbrev Result : Outcome × Engine → Type 0
  Result r = IsOutcome w path target rename_fallback e r

  skipped-IsOutcome : Result (skipped, e)
  unfolding IsOutcome
  skipped-IsOutcome = refl

  if-IsOutcome :
      (t : Bool) (x : Outcome × Engine)
      → (t ≡ false → Result x)
      → Result (if t then (skipped, e) else x)
  if-IsOutcome true x h = skipped-IsOutcome
  if-IsOutcome false x h = h refl

  abbrev by_id : Option ℕ → Outcome × Engine
  by_id named = elim named [
    | none ↦ (skipped, e)
    | some id ↦
        if is_back w path rename_fallback e
        then (skipped, e)
        else if not (is_some target.local_checksum)
        then (skipped, e)
        else send_delete w (delete_key path target) id e
  ]

  by_id-IsOutcome :
      (named : Option ℕ)
      → target.server_file_id ≡ named
      → (is_disconnected e.state || e.resyncing || not e.has_http) ≡ false
      → is_suppressed w path e ≡ false
      → not w.root_readable ≡ false
      → Result (by_id named)
  by_id-IsOutcome none h live quiet readable = skipped-IsOutcome
  by_id-IsOutcome (some id) h live quiet readable =
      if-IsOutcome (is_back w path rename_fallback e) _ (λ gone.
        if-IsOutcome (not (is_some target.local_checksum)) _ (λ held.
          send_delete-IsOutcome (record {
            id = id;
            named = h;
            held = ground arith;
            live = ground arith;
            readable = ground arith;
            quiet = quiet;
            gone = gone;
          })))

  -- _executeDelete, for a local delete or for the fallback of a rename, sends a request only when the
  -- engine is live, the folder can be read, no transfer holds the path, no file is there (a test that
  -- the fallback of a rename omits), and the row names a server file whose bytes were here. What became
  -- of it is on record: a skipped one changes nothing, a granted one leaves no row, and a refused one
  -- leaves its row PENDING_DELETE. The request of an upload whose file is gone is not one of these.
  pub execute_delete-IsOutcome : Result (execute_delete w path existing rename_fallback e)
  unfolding execute_delete execute_delete_locked
  execute_delete-IsOutcome = if-IsOutcome (is_suppressed w path e) _ (λ quiet.
      if-IsOutcome (is_disconnected e.state || e.resyncing || not e.has_http) _ (λ live.
        if-IsOutcome (is_suppressed w path e) _ (λ quiet'.
          if-IsOutcome (not w.root_readable) _
            (λ readable. by_id-IsOutcome target.server_file_id refl live quiet readable))))

-- A folder that cannot be read deletes nothing: no delete is buffered, and one that is buffered sends
-- nothing and leaves every row.
unreadable_root_deletes_nothing :
    (w : World) (path : Text) (existing : Row) (rename_fallback : Bool) (e : Engine)
    → w.root_readable ≡ false
    → (handle_local_delete w path e ≡ e)
      × (execute_delete w path existing rename_fallback e ≡ (skipped, e))
unfolding handle_local_delete execute_delete execute_delete_locked
unreadable_root_deletes_nothing w path existing rename_fallback e blip =
    (rw blip refl, ground arith)

-- At most one delete is buffered for a path.
abbrev pub IsUnique : List (Text × Pending) → Type 0
IsUnique [] = Unit
IsUnique ((path, pending) ∷ rest) = (get_pending path rest ≡ none) × IsUnique rest

pub get_pending-set_pending :
    (path at : Text) (pending : Pending) (rest : List (Text × Pending))
    → get_pending path (set_pending at pending rest)
      ≡ (if same at path then some pending else get_pending path rest)
unfolding get_pending set_pending
get_pending-set_pending path at pending [] = ground arith
get_pending-set_pending path at pending ((p, old) ∷ rest) = ground (
  arith,
  same_iff p at,
  same_iff p path,
  same_iff at path,
  get_pending-set_pending path at pending rest,
)

set_pending-IsUnique :
    (path : Text) (pending : Pending) (rest : List (Text × Pending))
    → IsUnique rest
    → IsUnique (set_pending path pending rest)
unfolding set_pending get_pending
set_pending-IsUnique path pending [] h = (refl, tt)
set_pending-IsUnique path pending ((p, old) ∷ rest) (fresh, h) = ground (
  arith,
  same_iff p path,
  same_iff path p,
  get_pending-set_pending p path pending rest,
  set_pending-IsUnique path pending rest h,
)

-- With a readable folder, the delete of a file that the server has sends nothing: it is buffered under
-- its path, with the row's digest, in place of an earlier one and without touching those of other
-- paths, at most one for a path.
handle_local_delete_buffers :
    (w : World) (relative_path : Text) (row : Row) (e : Engine)
    → w.root_readable ≡ true
    → lookup_tracked w (identity_key w relative_path) e ≡ some row
    → is_some row.server_file_id ≡ true
    → IsUnique e.pending_deletes
    → let e' = handle_local_delete w relative_path e in
      ((path : Text)
        → get_pending path e'.pending_deletes ≡ (
            if same (identity_key w relative_path) path
            then some (pending_of row)
            else get_pending path e.pending_deletes))
      × IsUnique e'.pending_deletes
      × (e'.sent ≡ e.sent)
      × (e'.db ≡ e.db)
unfolding handle_local_delete
handle_local_delete_buffers w relative_path row e readable found on_server unique =
    let key = identity_key w relative_path in
    rw (readable, found, on_server)
      (
        (λ path. get_pending-set_pending path key (pending_of row) e.pending_deletes),
        set_pending-IsUnique key (pending_of row) e.pending_deletes unique,
        refl,
        refl,
      )
