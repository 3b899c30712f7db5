-- ===== src/Rotation/Crash.antt =====
-- What is left of a rotation that stops at any of its steps, and of a recovery that stops in turn.
use hermitstash_sync.Prelude.{
  ℕ, zero, suc, ◌<◌, ◌≡◌, ◌⊎◌, refl, Bool, true, false, ◌&&◌, Option, none, some, List, [], ◌∷◌,
  arith, ◌==◌,
}
use hermitstash_sync.Rotation.{
  Trio, Store, nothing, FileStep, apply, cut, halted, cleanup_rotation_staging, recovery_steps,
  recover_mtls_from_backup, Offer, rotation_steps, Rotation, rotate, handle_ca_rotation,
}

-- A property of the files at every point where the steps can end, but for the middle of the step that
-- is excepted. The middle of a step leaves `left`.
abbrev AtEach : (Store → Type 0) → Option ℕ → Option ℕ → List FileStep → Store → Type 0
AtEach P left but [] s = P s
AtEach P left none (f ∷ fs) s = P s × P (cut left f s) × AtEach P left none fs (apply f s)
AtEach P left (some zero) (f ∷ fs) s = P s × AtEach P left none fs (apply f s)
AtEach P left (some (suc n)) (f ∷ fs) s =
    P s × P (cut left f s) × AtEach P left (some n) fs (apply f s)

-- What the middle of a step leaves, where it ended in one.
abbrev left_by : Option (Option ℕ) → Option ℕ
left_by none = none
left_by (some left) = left

-- A part of a text was left.
abbrev pub is_cut_short : Option (Option ℕ) → Bool
is_cut_short (some (some x)) = true
is_cut_short _ = false

abbrev is_excepted : Option ℕ → ℕ → Bool
is_excepted none k = false
is_excepted (some n) k = n == k

AtEach-between :
    (P : Store → Type 0) (left but : Option ℕ) (fs : List FileStep) (s : Store) (k : ℕ)
    → AtEach P left but fs s
    → P (halted k none fs s)
AtEach-between P left but [] s k h = h
AtEach-between P left none (f ∷ fs) s zero h = h.0
AtEach-between P left (some zero) (f ∷ fs) s zero h = h.0
AtEach-between P left (some (suc n)) (f ∷ fs) s zero h = h.0
AtEach-between P left none (f ∷ fs) s (suc k) h = AtEach-between P left none fs (apply f s) k h.2
AtEach-between P left (some zero) (f ∷ fs) s (suc k) h =
    AtEach-between P left none fs (apply f s) k h.1
AtEach-between P left (some (suc n)) (f ∷ fs) s (suc k) h =
    AtEach-between P left (some n) fs (apply f s) k h.2

AtEach-amid :
    (P : Store → Type 0) (left but : Option ℕ) (fs : List FileStep) (s : Store) (k : ℕ)
    → is_excepted but k ≡ false
    → AtEach P left but fs s
    → P (halted k (some left) fs s)
AtEach-amid P left but [] s k other h = h
AtEach-amid P left none (f ∷ fs) s zero other h = h.1
AtEach-amid P left (some zero) (f ∷ fs) s zero other h = absurd (ground (arith, other))
AtEach-amid P left (some (suc n)) (f ∷ fs) s zero other h = h.1
AtEach-amid P left none (f ∷ fs) s (suc k) other h =
    AtEach-amid P left none fs (apply f s) k refl h.2
AtEach-amid P left (some zero) (f ∷ fs) s (suc k) other h =
    AtEach-amid P left none fs (apply f s) k refl h.1
AtEach-amid P left (some (suc n)) (f ∷ fs) s (suc k) other h =
    AtEach-amid P left (some n) fs (apply f s) k (ground (arith, other)) h.2

-- The middle of the last copy to a backup, where it left a part of the text.
abbrev pub is_in_last_backup : ℕ → Option (Option ℕ) → Bool
is_in_last_backup k within = k == 5 && is_cut_short within

abbrev excepted : Option ℕ → Option ℕ
excepted none = none
excepted (some x) = some 5

AtEach-rotation :
    (P : Store → Type 0) (k : ℕ) (within : Option (Option ℕ)) (fs : List FileStep) (s : Store)
    → is_in_last_backup k within ≡ false
    → AtEach P (left_by within) (excepted (left_by within)) fs s
    → P (halted k within fs s)
AtEach-rotation P k none fs s other h = AtEach-between P none none fs s k h
AtEach-rotation P k (some none) fs s other h = AtEach-amid P none none fs s k refl h
AtEach-rotation P k (some (some x)) fs s other h =
    AtEach-amid P (some x) (some 5) fs s k (ground (arith, other)) h

AtEach-recovery :
    (P : Store → Type 0) (k : ℕ) (within : Option (Option ℕ)) (fs : List FileStep) (s : Store)
    → AtEach P (left_by within) none fs s
    → P (halted k within fs s)
AtEach-recovery P k none fs s h = AtEach-between P none none fs s k h
AtEach-recovery P k (some left) fs s h = AtEach-amid P left none fs s k refl h

abbrev pub offered : Offer → Trio
offered o = record { cert = some o.new_cert; key = some o.new_key; ca = some o.new_ca }

abbrev pub whole : ℕ → ℕ → ℕ → Trio
whole cert key ca = record { cert = some cert; key = some key; ca = some ca }

module _ (agree : ℕ → ℕ → Bool) (o : Offer) (cert key ca : ℕ) where
  -- After a boot the identity is the old one or the new one, whole, and nothing is staged.
  abbrev pub IsWhole : Store → Type 0
  IsWhole s = ((s.live ≡ whole cert key ca) ⊎ (s.live ≡ offered o)) × (s.next ≡ nothing)

  abbrev Boots : Store → Type 0
  Boots s = IsWhole (recover_mtls_from_backup agree s)

  abbrev BootsTwice : Option ℕ → Store → Type 0
  BootsTwice left s = AtEach Boots left none (recovery_steps agree s) s

  module _ (prev : Trio) where
    abbrev pub started : Store
    started = record { live = whole cert key ca; next = nothing; prev = prev }

    rotation_boots_removed :
        (again : Option ℕ)
        → agree cert key ≡ true
        → agree o.new_cert o.new_key ≡ true
        → prev ≡ nothing
        → AtEach (BootsTwice again) none none (rotation_steps o) started
    unfolding rotation_steps recover_mtls_from_backup recovery_steps
    rotation_boots_removed again old new first = ground (arith, old, new, first)

    rotation_boots_short :
        (x : ℕ) (again : Option ℕ)
        → agree cert key ≡ true
        → agree o.new_cert o.new_key ≡ true
        → prev ≡ nothing
        → AtEach (BootsTwice again) (some x) (some 5) (rotation_steps o) started
    unfolding rotation_steps recover_mtls_from_backup recovery_steps
    rotation_boots_short x again old new first = ground (arith, old, new, first)

    rotation_boots :
        (left again : Option ℕ)
        → agree cert key ≡ true
        → agree o.new_cert o.new_key ≡ true
        → prev ≡ nothing
        → AtEach (BootsTwice again) left (excepted left) (rotation_steps o) started
    rotation_boots none again old new first = rotation_boots_removed again old new first
    rotation_boots (some x) again old new first = rotation_boots_short x again old new first

    -- The first rotation of a client, which has no backup of an earlier one, where the certificate and
    -- the key belong together in the old identity and in the new one. It stops anywhere, between two
    -- steps or in the middle of a copy, but not where the last copy to a backup, that of the authority,
    -- has written a part of its text: wherever the recovery at the next boot stops in turn, between two
    -- steps or in the middle of a copy, the boot after that has the old identity or the new one, whole,
    -- with nothing staged.
    pub rotation_survives_crashes :
        (k : ℕ) (within : Option (Option ℕ)) (j : ℕ) (within' : Option (Option ℕ))
        → agree cert key ≡ true
        → agree o.new_cert o.new_key ≡ true
        → prev ≡ nothing
        → is_in_last_backup k within ≡ false
        → let crashed = halted k within (rotation_steps o) started in
          let again = halted j within' (recovery_steps agree crashed) crashed in
          IsWhole (recover_mtls_from_backup agree again)
    rotation_survives_crashes k within j within' old new first other =
        let crashed = halted k within (rotation_steps o) started in
        AtEach-recovery Boots j within' (recovery_steps agree crashed) crashed (
          AtEach-rotation (BootsTwice (left_by within')) k within (rotation_steps o) started other
            (rotation_boots (left_by within) (left_by within') old new first))

    -- There, the recovery at the next boot takes the part for the backup, and puts it where the
    -- authority was.
    short_backup_replaces :
        (x : ℕ)
        → prev ≡ nothing
        → (recover_mtls_from_backup agree
            (halted 5 (some (some x)) (rotation_steps o) started)).live
          ≡ whole cert key x
    unfolding rotation_steps recover_mtls_from_backup recovery_steps
    short_backup_replaces x first = ground (arith, first)

  stale_recovers :
      (stale_cert stale_key stale_ca k : ℕ)
      → k < 3
      → let before = started (whole stale_cert stale_key stale_ca) in
        (recover_mtls_from_backup agree (halted (suc k) none (rotation_steps o) before)).live
        ≡ whole stale_cert stale_key stale_ca
  unfolding rotation_steps recover_mtls_from_backup recovery_steps
  stale_recovers sc sk sa zero h = ground arith
  stale_recovers sc sk sa (suc zero) h = ground arith
  stale_recovers sc sk sa (suc (suc zero)) h = ground arith
  stale_recovers sc sk sa (suc (suc (suc k))) h = absurd (omega (arith, h))

  -- A later rotation, with the backup of the earlier one still there, that throws once it has written
  -- one, two or three of the `.next` files, and before it has begun the first copy to a backup, replaces
  -- the identity in use by the one of that backup, and acknowledges nothing. (One that throws at its
  -- first write leaves no `.next` file and is not meant.)
  pub stale_backup_replaces :
      (r : Rotation) (stale_cert stale_key stale_ca k : ℕ)
      → r.offer ≡ some o
      → r.dry_run ≡ false
      → (r.is_configured && r.is_valid && r.is_capable) ≡ true
      → r.throws ≡ some (record { after = suc k; within = none })
      → k < 3
      → let (acked, after) =
          handle_ca_rotation agree r (started (whole stale_cert stale_key stale_ca)) in
        (acked ≡ false) × (after.live ≡ whole stale_cert stale_key stale_ca)
  unfolding handle_ca_rotation rotate cleanup_rotation_staging
  stale_backup_replaces r sc sk sa k sent wet good throws h =
      let done = stale_recovers sc sk sa k h in
      let configured : r.is_configured ≡ true = ground (arith, good) in
      let valid : r.is_valid ≡ true = ground (arith, good) in
      let capable : r.is_capable ≡ true = ground (arith, good) in
      rw (sent, handle_ca_rotation)
        (rw (wet, configured, valid, capable) (rw (throws, rotate) (refl, done)))
