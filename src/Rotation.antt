-- ===== src/Rotation.antt =====
-- lib/sync-engine.js: the rotation of the client's certificate, its key and their authority:
-- _handleCaRotation, _cleanupRotationStaging and _recoverMtlsFromBackup. A write, a copy, a rename or an
-- unlink of one file is one step. The program can stop between any two, and in the middle of a copy,
-- which is not atomic; the framework's writes and renames are.
pub mod Crash
use hermitstash_sync.Prelude.{
  ℕ, zero, suc, Bool, true, false, not, ◌&&◌, ◌||◌, Option, none, some, List, [], ◌∷◌,
  if◌then◌else◌, is_some,
}

-- The PEM texts at the three configured paths, or at these with a suffix; texts are opaque numbers.
pub record Trio : Type 0 where
  pub cert : Option ℕ
  pub key : Option ℕ
  pub ca : Option ℕ

-- The configured paths, their `.next` siblings and their `.prev` siblings.
pub record Store : Type 0 where
  pub live : Trio
  pub next : Trio
  pub prev : Trio

abbrev pub nothing : Trio
nothing = record { cert = none; key = none; ca = none }

pub data Part : Type 0 where
  the_cert the_key the_ca : Part

abbrev pub part : Part → Trio → Option ℕ
part the_cert t = t.cert
part the_key t = t.key
part the_ca t = t.ca

abbrev pub set_part : Part → Option ℕ → Trio → Trio
set_part the_cert pem t = record t { cert = pem }
set_part the_key pem t = record t { key = pem }
set_part the_ca pem t = record t { ca = pem }

-- A write of a `.next`, a copy to a `.prev`, a rename of a `.next` over its path, a copy of a `.prev`
-- over its path, and an unlink of a `.next`.
pub data FileStep : Type 0 where
  stage : Part → ℕ → FileStep
  backup swap restore unstage : Part → FileStep

abbrev pub apply : FileStep → Store → Store
apply (stage p pem) s = record s { next = set_part p (some pem) s.next }
apply (backup p) s = record s { prev = set_part p (part p s.live) s.prev }
apply (swap p) s = record s {
  live = set_part p (part p s.next) s.live;
  next = set_part p none s.next;
}
apply (restore p) s = record s { live = set_part p (part p s.prev) s.live }
apply (unstage p) s = record s { next = set_part p none s.next }

abbrev pub apply_all : List FileStep → Store → Store
apply_all [] s = s
apply_all (f ∷ fs) s = apply_all fs (apply f s)

-- A step that ends in its middle: a copy leaves `left` at its destination, a part of the text or, where
-- the runtime could remove it, nothing. The other steps are atomic.
abbrev pub cut : Option ℕ → FileStep → Store → Store
cut left (backup p) s = record s { prev = set_part p left s.prev }
cut left (restore p) s = record s { live = set_part p left s.live }
cut left (stage p pem) s = s
cut left (swap p) s = s
cut left (unstage p) s = s

-- Where a list of steps ends early, by a stop or by a throw: after this many, and if `within` is given,
-- in the middle of the next, with what that leaves.
pub record Halt : Type 0 where
  pub after : ℕ
  pub within : Option (Option ℕ)

abbrev pub halted : ℕ → Option (Option ℕ) → List FileStep → Store → Store
halted k within [] s = s
halted zero none (f ∷ fs) s = s
halted zero (some left) (f ∷ fs) s = cut left f s
halted (suc k) within (f ∷ fs) s = halted k within fs (apply f s)

abbrev unstage_all : List FileStep
unstage_all = unstage the_cert ∷ unstage the_key ∷ unstage the_ca ∷ []

-- `_cleanupRotationStaging`
unfoldable pub cleanup_rotation_staging : Store → Store
cleanup_rotation_staging s = apply_all unstage_all s

abbrev has_any : Trio → Bool
has_any t = is_some t.cert || is_some t.key || is_some t.ca

abbrev has_all : Trio → Bool
has_all t = is_some t.cert && is_some t.key && is_some t.ca

-- Whether the certificate and the key are both there and do not agree; `agree` is whether both parse
-- and belong together.
abbrev torn : (ℕ → ℕ → Bool) → Option ℕ → Option ℕ → Bool
torn agree none k = false
torn agree (some c) none = false
torn agree (some c) (some k) = not (agree c k)

-- The steps of `_recoverMtlsFromBackup`.
unfoldable pub recovery_steps : (ℕ → ℕ → Bool) → Store → List FileStep
recovery_steps agree s =
    if not (torn agree s.live.cert s.live.key) && not (has_any s.next)
    then []
    else if not (has_all s.prev)
    then unstage_all
    else restore the_cert ∷ restore the_key ∷ restore the_ca ∷ unstage_all

-- `_recoverMtlsFromBackup`
unfoldable pub recover_mtls_from_backup : (ℕ → ℕ → Bool) → Store → Store
recover_mtls_from_backup agree s = apply_all (recovery_steps agree s) s

-- The texts that the server sent.
pub record Offer : Type 0 where
  pub new_cert : ℕ
  pub new_key : ℕ
  pub new_ca : ℕ

-- The steps of a rotation once the offer is validated.
unfoldable pub rotation_steps : Offer → List FileStep
rotation_steps o =
    stage the_cert o.new_cert
    ∷ stage the_key o.new_key
    ∷ stage the_ca o.new_ca
    ∷ backup the_cert
    ∷ backup the_key
    ∷ backup the_ca
    ∷ swap the_cert
    ∷ swap the_key
    ∷ swap the_ca
    ∷ []

-- What a rotation meets: its message (`none` when a field is missing), the paths of the configuration,
-- the verdicts on the offer, and where its steps throw, if they do.
pub record Rotation : Type 0 where
  pub offer : Option Offer
  pub dry_run : Bool
  pub is_configured : Bool
  pub is_valid : Bool  -- `_validateMtlsTrio` does not throw
  pub is_capable : Bool  -- `_probeMtlsTlsCapability`
  pub throws : Option Halt

unfoldable pub rotate : (ℕ → ℕ → Bool) → Offer → Option Halt → Store → Bool × Store
rotate agree o none s = (true, apply_all (rotation_steps o) s)
rotate agree o (some h) s =
    (false, recover_mtls_from_backup agree (halted h.after h.within (rotation_steps o) s))

-- `_handleCaRotation`: whether it acknowledges, and the files after.
unfoldable pub handle_ca_rotation : (ℕ → ℕ → Bool) → Rotation → Store → Bool × Store
handle_ca_rotation agree r s = elim r.offer [
  | none ↦ (false, s)
  | some o ↦
      if r.dry_run
      then (true, s)
      else if not r.is_configured
      then (false, s)
      else if not r.is_valid
      then (false, cleanup_rotation_staging s)
      else if not r.is_capable
      then (false, cleanup_rotation_staging s)
      else rotate agree o r.throws (cleanup_rotation_staging s)
]
