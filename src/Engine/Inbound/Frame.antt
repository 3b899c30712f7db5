-- ===== src/Engine/Inbound/Frame.antt =====
-- What the brackets of a handler and the cursor's bookkeeping leave alone.
use hermitstash_sync.Prelude.{ℕ, ◌+◌, ◌-◌, ◌≡◌, refl, ap, arith, if◌then◌else◌, Text, same}
use hermitstash_sync.Engine.State.{Engine, World, Disk, on_disk}
use hermitstash_sync.Engine.Suppress.{suppress, release, supp_key}
use hermitstash_sync.Engine.Cursor.{last_seq, update_seq, note_unapplied_seq}
use hermitstash_sync.Engine.Download.Frame.{
  maybe_finish_catch_up-IsFramed, held-maybe_finish_catch_up,
}
use hermitstash_sync.Engine.Inbound.Gate.{enter, leave}

pub on_disk-cong :
    (w : World) (path : Text) (e e' : Engine)
    → e'.disk ≡ e.disk
    → on_disk w e' path ≡ on_disk w e path
unfolding on_disk
on_disk-cong w path e e' h = ap (λ (d : Disk). d (w.disk_key path)) h

module _ (w : World) (seq : ℕ) (e : Engine) where
  pub files-update_seq : (update_seq w seq e).db.files ≡ e.db.files
  unfolding update_seq
  files-update_seq = ground arith

  pub disk-update_seq : (update_seq w seq e).disk ≡ e.disk
  unfolding update_seq
  disk-update_seq = ground arith

  pub held-update_seq : (update_seq w seq e).held ≡ e.held
  unfolding update_seq
  held-update_seq = ground arith

  pub pending-update_seq : (update_seq w seq e).catch_up_pending ≡ e.catch_up_pending
  unfolding update_seq
  pending-update_seq = ground arith

module _ (seq : ℕ) (e : Engine) where
  pub files-note : (note_unapplied_seq seq e).db.files ≡ e.db.files
  unfolding note_unapplied_seq
  files-note = ground arith

  pub disk-note : (note_unapplied_seq seq e).disk ≡ e.disk
  unfolding note_unapplied_seq
  disk-note = ground arith

  pub held-note : (note_unapplied_seq seq e).held ≡ e.held
  unfolding note_unapplied_seq
  held-note = ground arith

  pub cursor-note : last_seq (note_unapplied_seq seq e) ≡ last_seq e
  unfolding note_unapplied_seq
  cursor-note = ground arith

  pub pending-note : (note_unapplied_seq seq e).catch_up_pending ≡ e.catch_up_pending
  unfolding note_unapplied_seq
  pending-note = ground arith

module _ (w : World) (path : Text) (e : Engine) where
  pub files-enter : (enter w path e).db ≡ e.db
  unfolding enter suppress
  files-enter = refl

  pub disk-enter : (enter w path e).disk ≡ e.disk
  unfolding enter suppress
  disk-enter = refl

  pub flags-enter :
      ((enter w path e).resyncing ≡ e.resyncing)
      × ((enter w path e).stopped ≡ e.stopped)
      × ((enter w path e).lowest_unapplied ≡ e.lowest_unapplied)
  unfolding enter suppress
  flags-enter = (refl, refl, refl)

  pub held-enter :
      (key : Text)
      → (enter w path e).held key
        ≡ (if same (supp_key w path) key then e.held key + 1 else e.held key)
  unfolding enter suppress
  held-enter key = refl

  pub pending-enter : (enter w path e).catch_up_pending ≡ e.catch_up_pending + 1
  unfolding enter suppress
  pending-enter = refl

  abbrev released : Engine
  released = let e' = release w path e in record e' { catch_up_pending = e'.catch_up_pending - 1 }

  pub files-leave : (leave w path e).db.files ≡ e.db.files
  unfolding leave release
  files-leave = (maybe_finish_catch_up-IsFramed w released).files

  pub disk-leave : (leave w path e).disk ≡ e.disk
  unfolding leave release
  disk-leave = (maybe_finish_catch_up-IsFramed w released).disk

  pub cursor-leave : last_seq (leave w path e) ≡ last_seq e
  unfolding leave release
  cursor-leave = (maybe_finish_catch_up-IsFramed w released).cursor

  pub held-leave :
      (key : Text)
      → (leave w path e).held key
        ≡ (if same (supp_key w path) key then e.held key - 1 else e.held key)
  unfolding leave release
  held-leave key = ap (λ (h : Text → ℕ). h key) (held-maybe_finish_catch_up w released)

  pub pending-leave : (leave w path e).catch_up_pending ≡ e.catch_up_pending - 1
  unfolding leave release
  pending-leave = (maybe_finish_catch_up-IsFramed w released).pending
