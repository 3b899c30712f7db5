-- ===== src/Engine/Cursor/Gap.antt =====
-- The cursor moves forward only, is what a reconnect asks from, and stays below an event that was noted
-- as unapplied.
use hermitstash_sync.Prelude.{
  ℕ, ◌≤◌, ◌<◌, max, ◌≡◌, refl, ◌∙◌, true, false, List, [], ◌∷◌, arith, ltb, if◌then◌else◌, same,
}
use hermitstash_sync.StateDb.Meta.{
  Meta, get_last_seq, last_seq_key, last_sync_time_key, get_last_seq-set_last_seq,
  get_last_seq-set_meta,
}
use hermitstash_sync.Engine.State.{Engine, World}
use hermitstash_sync.Engine.Cursor.{
  note_unapplied_seq, last_seq, cleared, capped, advance, update_seq,
}

sync_time_apart : same last_sync_time_key last_seq_key ≡ false
unfolding same
sync_time_apart = refl

get_last_seq-advance :
    (target : ℕ) (meta : Meta)
    → get_last_seq (advance target meta)
      ≡ (if ltb (get_last_seq meta) target then target else get_last_seq meta)
get_last_seq-advance target meta = ground (arith, get_last_seq-set_last_seq target meta)

-- The cursor after an event was applied.
pub last_seq-update_seq :
    (w : World) (seq : ℕ) (e : Engine)
    → e.resyncing ≡ false
    → let target = capped seq (cleared seq e.lowest_unapplied) in
      last_seq (update_seq w seq e) ≡ (if ltb (last_seq e) target then target else last_seq e)
unfolding update_seq
last_seq-update_seq w seq e h = rw h (
    get_last_seq-set_meta last_sync_time_key w.now _ sync_time_apart
    ∙ get_last_seq-advance (capped seq (cleared seq e.lowest_unapplied)) e.db.sync_state)

lowest-update_seq :
    (w : World) (seq : ℕ) (e : Engine)
    → e.resyncing ≡ false
    → (update_seq w seq e).lowest_unapplied ≡ cleared seq e.lowest_unapplied
unfolding update_seq
lowest-update_seq w seq e h = rw h

resyncing-update_seq :
    (w : World) (seq : ℕ) (e : Engine) → (update_seq w seq e).resyncing ≡ e.resyncing
unfolding update_seq
resyncing-update_seq w seq e = ground arith

-- Outside a resync, applying an event, whatever its number, never moves the cursor back, moves it at most to that
-- number, and leaves a connected socket asking from exactly the cursor.
pub update_seq_monotone :
    (w : World) (seq : ℕ) (e : Engine)
    → e.resyncing ≡ false
    → (last_seq e ≤ last_seq (update_seq w seq e))
      × (last_seq (update_seq w seq e) ≤ max (last_seq e) seq)
      × (e.has_ws ≡ true → (update_seq w seq e).ws_since ≡ last_seq (update_seq w seq e))
unfolding update_seq
update_seq_monotone w seq e h = (
  ground (arith, last_seq-update_seq w seq e h),
  ground (arith, last_seq-update_seq w seq e h),
  λ connected. rw h (rw connected refl),
)

-- What happens to the cursor in one session of the socket: an event that was applied, or one that
-- was noted as unapplied.
pub data Effect : Type 0 where
  applied : World → ℕ → Effect
  failed : ℕ → Effect

pub settle : Effect → Engine → Engine
settle (applied w seq) e = update_seq w seq e
settle (failed seq) e = note_unapplied_seq seq e

pub session : List Effect → Engine → Engine
session [] e = e
session (o ∷ os) e = session os (settle o e)

-- No event up to `gap` is applied.
abbrev pub IsBeyond : ℕ → List Effect → Type 0
IsBeyond gap [] = Unit
IsBeyond gap (applied w seq ∷ os) = (gap < seq) × IsBeyond gap os
IsBeyond gap (failed seq ∷ os) = IsBeyond gap os

record IsHeld (gap : ℕ) (e : Engine) : Type 0 where
  below : last_seq e < gap
  marked : 0 < e.lowest_unapplied
  capping : e.lowest_unapplied ≤ gap
  live : e.resyncing ≡ false

update_seq-IsHeld :
    (gap seq : ℕ) (w : World) (e : Engine)
    → gap < seq
    → IsHeld gap e
    → IsHeld gap (update_seq w seq e)
update_seq-IsHeld gap seq w e beyond h = record {
  below = ground (arith, last_seq-update_seq w seq e h.live);
  marked = ground (arith, lowest-update_seq w seq e h.live);
  capping = ground (arith, lowest-update_seq w seq e h.live);
  live = rw resyncing-update_seq h.live;
}

note-IsHeld : (gap seq : ℕ) (e : Engine) → IsHeld gap e → IsHeld gap (note_unapplied_seq seq e)
unfolding note_unapplied_seq
note-IsHeld gap seq e h = ground arith

session-IsHeld :
    (gap : ℕ) (os : List Effect) (e : Engine)
    → IsBeyond gap os
    → IsHeld gap e
    → IsHeld gap (session os e)
unfolding session settle
session-IsHeld gap [] e b h = h
session-IsHeld gap (applied w seq ∷ os) e b h =
    session-IsHeld gap os (update_seq w seq e) b.1 (update_seq-IsHeld gap seq w e b.0 h)
session-IsHeld gap (failed seq ∷ os) e b h =
    session-IsHeld gap os (note_unapplied_seq seq e) b (note-IsHeld gap seq e h)

-- Outside a resync, an event above the cursor that _noteUnappliedSeq has noted, as it notes the event
-- of a handler that throws and a remote delete that is not honoured, is not leapfrogged: whichever
-- later events are applied by _updateSeq or noted, as long as none up to its number is applied, the
-- cursor, from which a reconnect asks again, stays below it. A failed download is not noted, and this
-- says nothing of it.
pub session_below_gap :
    (gap : ℕ) (os : List Effect) (e : Engine)
    → e.resyncing ≡ false
    → last_seq e < gap
    → IsBeyond gap os
    → last_seq (session (failed gap ∷ os) e) < gap
unfolding session settle
session_below_gap gap os e live below beyond =
    (session-IsHeld gap os (note_unapplied_seq gap e) beyond (opened live below)).below
  where
    opened : e.resyncing ≡ false → last_seq e < gap → IsHeld gap (note_unapplied_seq gap e)
    opened l b = unfold note_unapplied_seq in ground arith

-- Outside a resync and with the cursor below the lowest failed event, applying that event moves the
-- cursor exactly to it and clears the mark.
update_seq_gap :
    (w : World) (e : Engine)
    → e.resyncing ≡ false
    → last_seq e < e.lowest_unapplied
    → (last_seq (update_seq w e.lowest_unapplied e) ≡ e.lowest_unapplied)
      × ((update_seq w e.lowest_unapplied e).lowest_unapplied ≡ 0)
update_seq_gap w e live below = (
  ground (arith, last_seq-update_seq w e.lowest_unapplied e live),
  ground (arith, lowest-update_seq w e.lowest_unapplied e live),
)
