-- ===== src/Ecu/Install/Recovery.antt =====
-- What a reboot makes of an installation that stopped anywhere.
use virtual_automotive_ota_d.Prelude.{
  ℕ, zero, suc, ◌-◌, ◌≡◌, ◌⊎◌, inl, inr, refl, true, false, String, List, [], ◌∷◌, ◌++◌, length,
  replicate, take, arith, dec_le, take-append_left, take-append_right, take_all,
}
use virtual_automotive_ota_d.Ecu.Slots.{
  Slot, JournalState, prepared, erased, programmed, verified, pending_activation, inactive_slot,
  should_rollback_pending, update_control_block, update_journal, set_active_slot_control_blocks,
}
use virtual_automotive_ota_d.Ecu.Versions.{SemVer}
use virtual_automotive_ota_d.Ecu.Reboot.{Device, reboot, validate_boot}
use virtual_automotive_ota_d.Ecu.Install.{
  write_journal, initialize, write_staged, write_slot_pending, write_version_pending, flashing,
  staging, apply_all, interrupted_install,
}
use virtual_automotive_ota_d.Ecu.Install.Settled.{
  IsSettled, IsOnTrial, IsStaged, write_journal-IsSettled, initialize-IsSettled,
  write_staged-IsSettled, reboot-IsSettled, IsFlashed, write_journal-journal,
  write_journal-IsFlashed, write_staged-IsFlashed, write_slot_pending-IsFlashed, reboot-recovers,
  reboot-boots,
}

write_journal-IsStaged :
    (s : Slot) (v : SemVer) (x : Slot) (version : SemVer) (d : Device) (j : JournalState)
    → IsStaged s v x version d
    → IsStaged s v x version (write_journal x j d)
unfolding write_journal
write_journal-IsStaged s v x version d j st = record {
  pending_slot = st.pending_slot;
  confirmed = st.confirmed;
  once = st.once;
  booted = st.booted;
  pending_version = st.pending_version;
  version_pending = st.version_pending;
  pending_commit = st.pending_commit;
  version_confirmed = st.version_confirmed;
  confirmed_current = st.confirmed_current;
}

-- The version and the slot from before, confirmed, or the new ones on trial.
abbrev pub Recovered : Slot → SemVer → Slot → SemVer → Device → Type 0
Recovered s v x version d = IsSettled s v d ⊎ IsOnTrial x version s v d

-- A reboot after the first records of the staging.
module _ (s : Slot) (v : SemVer) (x : Slot) (firmware_file target : String) (version : SemVer)
    (d : Device) (settled : IsSettled s v d) (flashed : IsFlashed x d) where
  abbrev marked : Device
  marked = write_slot_pending x firmware_file target (write_staged x d)

  abbrev versioned : Device
  versioned = write_version_pending x version marked

  marked-IsFlashed : IsFlashed x marked
  marked-IsFlashed =
      write_slot_pending-IsFlashed x (write_staged x d) firmware_file target
        (write_staged-IsFlashed x d flashed)

  versioned-IsFlashed : IsFlashed x versioned
  unfolding write_version_pending
  versioned-IsFlashed = record {
    state = marked-IsFlashed.state;
    journal = marked-IsFlashed.journal;
    incomplete = marked-IsFlashed.incomplete;
  }

  marked-recovers : IsSettled s v (reboot marked)
  unfolding write_slot_pending write_staged update_control_block
  marked-recovers =
      reboot-recovers s v x marked refl marked-IsFlashed settled.confirmed settled.once
        settled.version_confirmed settled.confirmed_current

  versioned-recovers : IsSettled s v (reboot versioned)
  unfolding write_slot_pending write_staged update_control_block write_version_pending
  versioned-recovers =
      reboot-recovers s v x versioned refl versioned-IsFlashed settled.confirmed settled.once
        settled.version_confirmed settled.confirmed_current

  versioned-IsStaged : IsStaged s v x version versioned
  unfolding write_slot_pending write_staged update_control_block write_version_pending
  versioned-IsStaged = record {
    pending_slot = refl;
    confirmed = settled.confirmed;
    once = settled.once;
    booted = refl;
    pending_version = refl;
    version_pending = refl;
    pending_commit = refl;
    version_confirmed = settled.version_confirmed;
    confirmed_current = settled.confirmed_current;
  }

  verified-boots : IsOnTrial x version s v (reboot (write_journal x verified versioned))
  verified-boots =
      reboot-boots s v x version verified (write_journal x verified versioned)
        (write_journal-IsStaged s v x version versioned verified versioned-IsStaged)
        (write_journal-journal x versioned verified) refl

  activated-boots :
      IsOnTrial x version s v
        (reboot (write_journal x pending_activation (write_journal x verified versioned)))
  activated-boots =
      let waiting = write_journal x verified versioned in
      reboot-boots s v x version pending_activation (write_journal x pending_activation waiting)
        (write_journal-IsStaged s v x version waiting pending_activation
          (write_journal-IsStaged s v x version versioned verified versioned-IsStaged))
        (write_journal-journal x waiting pending_activation) refl

  staging-recovers :
      (m : ℕ)
      → Recovered s v x version
          (reboot (apply_all (take m (staging x firmware_file target version)) d))
  staging-recovers zero = inl (reboot-IsSettled s v d settled)
  staging-recovers (suc zero) =
      inl (reboot-IsSettled s v (write_staged x d) (write_staged-IsSettled s v d x settled))
  staging-recovers (suc (suc zero)) = inl marked-recovers
  staging-recovers (suc (suc (suc zero))) = inl versioned-recovers
  staging-recovers (suc (suc (suc (suc zero)))) = inr verified-boots
  staging-recovers (suc (suc (suc (suc (suc zero))))) = inr activated-boots
  staging-recovers (suc (suc (suc (suc (suc (suc m)))))) = inr activated-boots

-- The records of the flashing leave slots and versions settled, wherever they stop.
module _ (s : Slot) (v : SemVer) (x : Slot) where
  programmed-IsSettled :
      (n pages : ℕ) (d : Device)
      → IsSettled s v d
      → IsSettled s v (apply_all (take n (replicate pages (write_journal x programmed))) d)
  programmed-IsSettled zero pages d h = h
  programmed-IsSettled (suc n) zero d h = h
  programmed-IsSettled (suc n) (suc pages) d h =
      programmed-IsSettled n pages (write_journal x programmed d)
        (write_journal-IsSettled s v d x h programmed)

  programmed-IsFlashed :
      (pages : ℕ) (d : Device)
      → IsFlashed x d
      → IsFlashed x (apply_all (replicate pages (write_journal x programmed)) d)
  programmed-IsFlashed zero d h = h
  programmed-IsFlashed (suc pages) d h =
      programmed-IsFlashed pages (write_journal x programmed d)
        (write_journal-IsFlashed x d programmed refl)

  flashing-IsSettled :
      (n pages : ℕ) (d : Device)
      → IsSettled s v d
      → IsSettled s v (apply_all (take n (flashing x pages)) d)
  flashing-IsSettled zero pages d h = h
  flashing-IsSettled (suc zero) pages d h = initialize-IsSettled s v d x h
  flashing-IsSettled (suc (suc zero)) pages d h =
      write_journal-IsSettled s v (initialize x d) x (initialize-IsSettled s v d x h) prepared
  flashing-IsSettled (suc (suc (suc n))) pages d h =
      let d' = write_journal x prepared (initialize x d) in
      programmed-IsSettled n pages (write_journal x erased d') (
        write_journal-IsSettled s v d' x
          (write_journal-IsSettled s v (initialize x d) x (initialize-IsSettled s v d x h) prepared)
          erased)

  flashing_done-IsSettled :
      (pages : ℕ) (d : Device) → IsSettled s v d → IsSettled s v (apply_all (flashing x pages) d)
  flashing_done-IsSettled pages d h =
      let all : take (length (flashing x pages)) (flashing x pages) ≡ flashing x pages =
        take_all (length (flashing x pages)) (flashing x pages) (omega arith) in
      rw (← all) (flashing-IsSettled (length (flashing x pages)) pages d h)

  flashing-IsFlashed : (pages : ℕ) (d : Device) → IsFlashed x (apply_all (flashing x pages) d)
  flashing-IsFlashed pages d =
      let d' = write_journal x prepared (initialize x d) in
      programmed-IsFlashed pages (write_journal x erased d')
        (write_journal-IsFlashed x d' erased refl)

apply_all-append :
    (fs gs : List (Device → Device)) (d : Device)
    → apply_all (fs ++ gs) d ≡ apply_all gs (apply_all fs d)
apply_all-append [] gs d = refl
apply_all-append (f ∷ fs) gs d = apply_all-append fs gs (f d)

-- From an ECU that runs version `v`, confirmed, an installation that stops after any number of its
-- records, an image of any number of pages, and the reboot that follows: the ECU runs version `v`
-- from the slot that it ran from, confirmed and with nothing pending, or it runs the new version from
-- the other slot on trial, and would fall back to `v`.
pub interrupted_install-recovers :
    (s : Slot) (v : SemVer) (n pages : ℕ) (firmware_file target : String) (version : SemVer)
    (d : Device)
    → IsSettled s v d
    → Recovered s v
        (inactive_slot d.slots)
        version
        (reboot (interrupted_install n pages firmware_file target version d))
unfolding interrupted_install
interrupted_install-recovers s v n pages firmware_file target version d h =
    let x = inactive_slot d.slots in
    let stage = staging x firmware_file target version in
    elim (dec_le n (length (flashing x pages))) [
      | yes early ↦ rw (take-append_left n (flashing x pages) stage early) (
          inl (
            reboot-IsSettled s v (apply_all (take n (flashing x pages)) d)
              (flashing-IsSettled s v x n pages d h)))
      | no late ↦
          let done = apply_all (flashing x pages) d in
          rw
            (
              take-append_right n (flashing x pages) stage (omega arith),
              apply_all-append (flashing x pages) (take (n - length (flashing x pages)) stage) d,
            )
            (staging-recovers s v x firmware_file target version done
              (flashing_done-IsSettled s v x pages d h) (flashing-IsFlashed s v x pages d)
              (n - length (flashing x pages)))
    ]

module _ (s : Slot) (v : SemVer) (x : Slot) (version : SemVer) (d : Device)
    (trial : IsOnTrial x version s v d) where
  pub reboot-ends_trial : IsSettled s v (reboot d)
  unfolding reboot set_active_slot_control_blocks update_control_block update_journal
      should_rollback_pending
  reboot-ends_trial = ground arith

  confirm-ends_trial : (actual : SemVer) → IsSettled x actual (validate_boot true actual d)
  unfolding validate_boot set_active_slot_control_blocks update_control_block update_journal
  confirm-ends_trial actual = ground arith

  reject-ends_trial : (actual : SemVer) → IsSettled s v (validate_boot false actual d)
  unfolding validate_boot set_active_slot_control_blocks update_control_block update_journal
  reject-ends_trial actual = ground arith

-- A trial ends in one of three ways: a reboot before the validation and a failed validation both bring
-- back the old version in its slot, confirmed and with nothing pending, and a validation that passes
-- makes the slot on trial and the version that was found the confirmed ones.
pub trial-ends :
    (s : Slot) (v : SemVer) (x : Slot) (version actual : SemVer) (d : Device)
    → IsOnTrial x version s v d
    → IsSettled s v (reboot d)
      × IsSettled x actual (validate_boot true actual d)
      × IsSettled s v (validate_boot false actual d)
trial-ends s v x version actual d trial = (
  reboot-ends_trial s v x version d trial,
  confirm-ends_trial s v x version d trial actual,
  reject-ends_trial s v x version d trial actual,
)
