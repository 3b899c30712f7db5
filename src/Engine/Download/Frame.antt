-- ===== src/Engine/Download/Frame.antt =====
-- What the bookkeeping around a transfer leaves alone.
use hermitstash_sync.Prelude.{
  ℕ, ◌+◌, ◌-◌, ◌≡◌, refl, ap, ◌∙◌, Bool, false, arith, if◌then◌else◌, Text, same,
}
use hermitstash_sync.StateDb.Meta.{last_seq_key, last_sync_time_key, get_last_seq-set_meta}
use hermitstash_sync.Engine.State.{Engine, World}
use hermitstash_sync.Engine.Suppress.{suppress, release, supp_key}
use hermitstash_sync.Engine.Cursor.{last_seq, maybe_mark_synced, maybe_finish_catch_up}
use hermitstash_sync.Engine.Download.{begin_transfer, end_transfer}

-- The tables but for the time of the last sync, the disk, and the flags are the same.
pub record IsFramed (e e' : Engine) : Type 0 where
  pub files : e'.db.files ≡ e.db.files
  pub disk : e'.disk ≡ e.disk
  pub cursor : last_seq e' ≡ last_seq e
  pub lowest : e'.lowest_unapplied ≡ e.lowest_unapplied
  pub pending : e'.catch_up_pending ≡ e.catch_up_pending
  pub resyncing : e'.resyncing ≡ e.resyncing
  pub stopped : e'.stopped ≡ e.stopped
  pub failures : e'.permanent_failures ≡ e.permanent_failures
  pub deletes : e'.pending_deletes ≡ e.pending_deletes

sync_time_apart : same last_sync_time_key last_seq_key ≡ false
unfolding same
sync_time_apart = refl

pub maybe_mark_synced-IsFramed : (b : Bool) (e : Engine) → IsFramed e (maybe_mark_synced b e)
unfolding maybe_mark_synced
maybe_mark_synced-IsFramed b e = ground arith

pub held-maybe_mark_synced : (b : Bool) (e : Engine) → (maybe_mark_synced b e).held ≡ e.held
unfolding maybe_mark_synced
held-maybe_mark_synced b e = ground arith

pub maybe_finish_catch_up-IsFramed :
    (w : World) (e : Engine) → IsFramed e (maybe_finish_catch_up w e)
unfolding maybe_finish_catch_up
maybe_finish_catch_up-IsFramed w e =
    ground (arith, get_last_seq-set_meta last_sync_time_key w.now e.db.sync_state sync_time_apart)

pub held-maybe_finish_catch_up :
    (w : World) (e : Engine) → (maybe_finish_catch_up w e).held ≡ e.held
unfolding maybe_finish_catch_up
held-maybe_finish_catch_up w e = ground arith

pub begin_transfer-IsFramed :
    (w : World) (path : Text) (e : Engine) → IsFramed e (begin_transfer w path e)
unfolding suppress
begin_transfer-IsFramed w path e = ground arith

pub end_transfer-IsFramed :
    (w : World) (path : Text) (e : Engine) → IsFramed e (end_transfer w path e)
unfolding release
end_transfer-IsFramed w path e =
    let e' = release w path e in
    let a : Engine = record e' {
      active_downloads = e'.active_downloads - 1;
      active_ops = e'.active_ops - 1;
    } in
    let f = maybe_mark_synced-IsFramed w.pool_busy a in
    let g = maybe_finish_catch_up-IsFramed w (maybe_mark_synced w.pool_busy a) in
    record {
      files = g.files ∙ f.files;
      disk = g.disk ∙ f.disk;
      cursor = g.cursor ∙ f.cursor;
      lowest = g.lowest ∙ f.lowest;
      pending = g.pending ∙ f.pending;
      resyncing = g.resyncing ∙ f.resyncing;
      stopped = g.stopped ∙ f.stopped;
      failures = g.failures ∙ f.failures;
      deletes = g.deletes ∙ f.deletes;
    }

pub held-release :
    (w : World) (path key : Text) (e : Engine)
    → (release w path e).held key
      ≡ (if same (supp_key w path) key then e.held key - 1 else e.held key)
unfolding release
held-release w path key e = refl

pub held-suppress :
    (w : World) (path key : Text) (e : Engine)
    → (suppress w path e).held key
      ≡ (if same (supp_key w path) key then e.held key + 1 else e.held key)
unfolding suppress
held-suppress w path key e = refl

pub held-end_transfer :
    (w : World) (path key : Text) (e : Engine)
    → (end_transfer w path e).held key
      ≡ (if same (supp_key w path) key then e.held key - 1 else e.held key)
unfolding release
held-end_transfer w path key e =
    let e' = release w path e in
    let a : Engine = record e' {
      active_downloads = e'.active_downloads - 1;
      active_ops = e'.active_ops - 1;
    } in
    ap (λ (h : Text → ℕ). h key)
      (held-maybe_finish_catch_up w (maybe_mark_synced w.pool_busy a)
        ∙ held-maybe_mark_synced w.pool_busy a)

pub held-begin_transfer :
    (w : World) (path key : Text) (e : Engine)
    → (begin_transfer w path e).held key
      ≡ (if same (supp_key w path) key then e.held key + 1 else e.held key)
unfolding suppress
held-begin_transfer w path key e = ground arith
