-- ===== src/Ir/Restamp/Status.antt =====
-- restamp.rs: when restamping leaves a status as it is.
use brygge.Prelude.{◌≡◌, refl, ap, sym, true, Bytes, Bool-cases, inl, inr, ◌↔◌}
use brygge.Prelude.{ℕ, List, ◌≢◌}
use brygge.Ir.Status.ChangedPart.{ChangedPart}
use brygge.Prelude.Utf8.{text_eq→eq, text_eq_refl, text_eq}
use mathlib.Core.Path.{subst}
use brygge.Ir.Status.Derivation.{Derivation}
use brygge.Ir.Status.EpistemicStatus.{EpistemicStatus}
use brygge.Ir.Restamp.{restamp_derivation, restamp_status}

-- Every derivation by the decoder, at any depth, has the version.
unfoldable pub Stamped : Bytes → Bytes → EpistemicStatus → Type 0
Stamped decoder version EpistemicStatus.stated = Unit {0}
Stamped decoder version (EpistemicStatus.derived d) =
    text_eq d.by decoder ≡ true → d.decoder_version ≡ version
Stamped decoder version (EpistemicStatus.transformed step changed prior) =
    Stamped decoder version prior

derivation_same :
    (decoder version : Bytes) (d : Derivation)
    → (text_eq d.by decoder ≡ true → d.decoder_version ≡ version)
    → restamp_derivation decoder version d ≡ d
unfolding restamp_derivation
derivation_same decoder version d h = elim (Bool-cases (text_eq d.by decoder)) [
  | inl own ↦ rw own (ap (λ v. record d { decoder_version = v }) (sym (h own)))
  | inr other ↦ rw other refl
]

derivation_stamped :
    (decoder version : Bytes) (d : Derivation)
    → text_eq (restamp_derivation decoder version d).by decoder ≡ true
    → (restamp_derivation decoder version d).decoder_version ≡ version
unfolding restamp_derivation
derivation_stamped decoder version d h = elim (Bool-cases (text_eq d.by decoder)) [
  | inl own ↦ rw own refl
  | inr other ↦ absurd (cc (other, rw other at h))
]

status_same :
    (decoder version : Bytes) (s : EpistemicStatus)
    → Stamped decoder version s
    → restamp_status decoder version s ≡ s
unfolding restamp_status Stamped
status_same decoder version EpistemicStatus.stated h = refl
status_same decoder version (EpistemicStatus.derived d) h =
    ap EpistemicStatus.derived (derivation_same decoder version d h)
status_same decoder version (EpistemicStatus.transformed step changed prior) h =
    ap (EpistemicStatus.transformed step changed) (status_same decoder version prior h)

pub restamp_status-Stamped :
    (decoder version : Bytes) (s : EpistemicStatus)
    → Stamped decoder version (restamp_status decoder version s)
unfolding restamp_status Stamped
restamp_status-Stamped decoder version EpistemicStatus.stated = tt
restamp_status-Stamped decoder version (EpistemicStatus.derived d) =
    derivation_stamped decoder version d
restamp_status-Stamped decoder version (EpistemicStatus.transformed step changed prior) =
    restamp_status-Stamped decoder version prior

-- Restamping a status with a version leaves it as it is exactly when every derivation by the decoder, below any
-- number of transforms, has that version already.
pub restamp_status_iff :
    (decoder version : Bytes) (s : EpistemicStatus)
    → (restamp_status decoder version s ≡ s) ↔ Stamped decoder version s
restamp_status_iff decoder version s = (
  λ e. subst (Stamped decoder version) e (restamp_status-Stamped decoder version s),
  status_same decoder version s,
)

-- A status and what it is under a new version: the derivations by the decoder get it, the others are left alone.
pub data StatusAfter (decoder version : Bytes) : EpistemicStatus → EpistemicStatus → Type 0 where
  still_stated : StatusAfter decoder version EpistemicStatus.stated EpistemicStatus.stated
  own :
      (d : Derivation)
      → d.by ≡ decoder
      → StatusAfter decoder version
          (EpistemicStatus.derived d)
          (EpistemicStatus.derived (record d { decoder_version = version }))
  foreign :
      (d : Derivation)
      → d.by ≢ decoder
      → StatusAfter decoder version (EpistemicStatus.derived d) (EpistemicStatus.derived d)
  below :
      (step : ℕ) (changed : List ChangedPart) (s t : EpistemicStatus)
      → StatusAfter decoder version s t
      → StatusAfter decoder version
          (EpistemicStatus.transformed step changed s)
          (EpistemicStatus.transformed step changed t)

pub restamp_status-StatusAfter :
    (decoder version : Bytes) (s : EpistemicStatus)
    → StatusAfter decoder version s (restamp_status decoder version s)
unfolding restamp_status restamp_derivation
restamp_status-StatusAfter decoder version EpistemicStatus.stated = still_stated
restamp_status-StatusAfter decoder version (EpistemicStatus.derived d) =
    elim (Bool-cases (text_eq d.by decoder)) [
      | inl same ↦ rw same (own d (text_eq→eq d.by decoder same))
      | inr differ ↦ rw differ (foreign d (λ e. absurd (cc (differ, text_eq_refl decoder, e))))
    ]
restamp_status-StatusAfter decoder version (EpistemicStatus.transformed step changed prior) =
    below step changed prior (restamp_status decoder version prior)
      (restamp_status-StatusAfter decoder version prior)
