-- ===== src/Engine/Rescan/Laws.antt =====
-- The rescan spares what is on the disk, and buffers the deletes that the watcher did not see.
use hermitstash_sync.Prelude.{
  ◌≡◌, inl, inr, refl, ap, ◌∙◌, Bool, true, false, not, ◌||◌, Option, none, some, List, [], ◌∷◌,
  arith, if◌then◌else◌, is_some, Bool-cases, any, Text, same, same_iff,
}
use hermitstash_sync.StateDb.Rows.{Row}
use hermitstash_sync.Engine.State.{Engine, World, Disk, identity_key, on_disk, lookup_tracked}
use hermitstash_sync.Engine.Suppress.{is_suppressed}
use hermitstash_sync.Engine.Inbound.Gate.{in_sync_scope}
use hermitstash_sync.Engine.Local.Delete.{handle_local_delete, get_pending, pending_of}
use hermitstash_sync.Engine.Local.DeleteLaws.{get_pending-set_pending}
use hermitstash_sync.Engine.Rescan.{rescan_row, rescan_rows}

-- The disk and the buffered delete of a path are as before.
abbrev pub IsSpared : Text → Engine → Engine → Type 0
IsSpared p e e' =
    (e'.disk ≡ e.disk) × (get_pending p e'.pending_deletes ≡ get_pending p e.pending_deletes)

if-IsSpared :
    (p : Text) (e : Engine) (b : Bool) (x y : Engine)
    → IsSpared p e x
    → IsSpared p e y
    → IsSpared p e (if b then x else y)
if-IsSpared p e true x y a b = a
if-IsSpared p e false x y a b = b

delete-IsSpared :
    (w : World) (path p : Text) (e : Engine) (found : Option Row)
    → lookup_tracked w (identity_key w path) e ≡ found
    → same (identity_key w path) p ≡ false
    → IsSpared p e (handle_local_delete w path e)
unfolding handle_local_delete
delete-IsSpared w path p e none h apart =
    rw (h, handle_local_delete)
      (if-IsSpared p e (not w.root_readable) e _ (refl, refl) (refl, refl))
delete-IsSpared w path p e (some row) h apart =
    rw (h, handle_local_delete)
      (if-IsSpared p e (not w.root_readable) e _ (refl, refl)
        (if-IsSpared p e (is_some row.server_file_id) _ _
          (
            refl,
            get_pending-set_pending p (identity_key w path) (pending_of row) e.pending_deletes
                ∙ rw apart refl,
          )
          (refl, refl)))

-- Normalization is idempotent.
abbrev pub IsCanonical : World → Type 0
IsCanonical w = (t : Text) → identity_key w (identity_key w t) ≡ identity_key w t

absent_apart :
    (w : World) (path p : Text) (e : Engine)
    → is_some (on_disk w e path) ≡ false
    → is_some (on_disk w e p) ≡ true
    → same path p ≡ false
absent_apart w path p e absent there = elim (Bool-cases (same path p)) [
  | inl h ↦ absurd (
      ground
        (arith, absent, there, ap (λ (t : Text). is_some (on_disk w e t)) ((same_iff path p).0 h)))
  | inr h ↦ h
]

absent-IsSpared :
    (w : World) (at p : Text) (e : Engine) (b : Bool)
    → identity_key w at ≡ at
    → is_some (on_disk w e p) ≡ true
    → is_some (on_disk w e at) ≡ b
    → IsSpared p e (if b then e else handle_local_delete w at e)
absent-IsSpared w at p e true canonical present h = (refl, refl)
absent-IsSpared w at p e false canonical present h =
    delete-IsSpared w at p e (lookup_tracked w (identity_key w at) e) refl
      (ap (λ (t : Text). same t p) canonical ∙ absent_apart w at p e h present)

rescan_row-IsSpared :
    (w : World) (there : List Text) (row : Row) (p : Text) (e : Engine)
    → IsCanonical w
    → is_some (on_disk w e p) ≡ true
    → IsSpared p e (rescan_row w there row e)
unfolding rescan_row
rescan_row-IsSpared w there row p e canonical present =
    let path = identity_key w row.relative_path in
    let absent =
      absent-IsSpared w path p e (is_some (on_disk w e path)) (canonical row.relative_path) present
        refl in
    if-IsSpared p e (any (same path) there) e _ (refl, refl)
      (if-IsSpared p e (not (in_sync_scope w path) || is_suppressed w path e) e _ (refl, refl)
        absent)

-- However the table stands against the folder, and whatever the walk saw, the rescan buffers no delete
-- of a file that is on the disk, and removes nothing from the disk.
pub rescan_rows-IsSpared :
    (w : World) (there : List Text) (rows : List Row) (p : Text) (e : Engine)
    → IsCanonical w
    → is_some (on_disk w e p) ≡ true
    → IsSpared p e (rescan_rows w there rows e)
unfolding rescan_rows on_disk
rescan_rows-IsSpared w there [] p e canonical present = (refl, refl)
rescan_rows-IsSpared w there (row ∷ rows) p e canonical present =
    let now = rescan_row-IsSpared w there row p e canonical present in
    let still : is_some (on_disk w (rescan_row w there row e) p) ≡ true =
      ap (λ (d : Disk). is_some (d (w.disk_key p))) now.0 ∙ present in
    let later = rescan_rows-IsSpared w there rows p (rescan_row w there row e) canonical still in
    if-IsSpared p e (e.stopped || e.resyncing) e _ (refl, refl) (later.0 ∙ now.0, later.1 ∙ now.1)
