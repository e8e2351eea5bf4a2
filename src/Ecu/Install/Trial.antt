-- ===== src/Ecu/Install/Trial.antt =====
-- An installation that starts while an image is on trial, and is cut short.
use virtual_automotive_ota_d.Prelude.{
  ℕ, zero, suc, ◌<◌, ◌≡◌, refl, ap, true, some, String, List, [], ◌∷◌, ◌++◌, length, replicate,
  take, All, arith, take-append_left, ◌∙◌,
}
use virtual_automotive_ota_d.Ecu.Slots.{
  Slot, a, b, other, same_slot, JournalState, is_incomplete, prepared, erased, programmed,
  initialized, inactive_slot, should_rollback_pending, update_control_block, update_journal,
  set_active_slot_control_blocks,
}
use virtual_automotive_ota_d.Ecu.Versions.{SemVer}
use virtual_automotive_ota_d.Ecu.Reboot.{Device, reboot}
use virtual_automotive_ota_d.Ecu.Install.{
  write_journal, initialize, flashing, staging, apply_all, interrupted_install,
}
use virtual_automotive_ota_d.Ecu.Install.Settled.{IsSettled, IsOnTrial}
use virtual_automotive_ota_d.Ecu.Install.Recovery.{reboot-ends_trial}

-- The journal of a slot says that flashing it has begun and not ended.
abbrev pub IsHalfWritten : Slot → Device → Type 0
IsHalfWritten s d =
    (j : JournalState) × ((d.slots.directory s).journal ≡ some j) × (is_incomplete j ≡ true)

same_slot_self : (s : Slot) → same_slot s s ≡ true
same_slot_self a = refl
same_slot_self b = refl

module _ (x : Slot) (version : SemVer) (s : Slot) (v : SemVer) where
  -- A record of the installation in slot `s`
  abbrev Overwrites : (Device → Device) → Type 0
  Overwrites f =
      (d : Device)
      → IsOnTrial x version s v d
      → IsOnTrial x version s v (f d) × IsHalfWritten s (f d)

  -- A record that leaves the state of slots and versions as they are keeps the trial.
  trial-IsOnTrial :
      (d e : Device)
      → IsOnTrial x version s v d
      → e.slots.state ≡ d.slots.state
      → e.versions ≡ d.versions
      → IsOnTrial x version s v e
  trial-IsOnTrial d e trial slots versions = record {
    pending_slot = rw slots trial.pending_slot;
    active = rw slots trial.active;
    confirmed = rw slots trial.confirmed;
    once = rw slots trial.once;
    booted = rw slots trial.booted;
    version_pending = rw versions trial.version_pending;
    pending_commit = rw versions trial.pending_commit;
    version_active = rw versions trial.version_active;
    version_confirmed = rw versions trial.version_confirmed;
    current = rw versions trial.current;
    confirmed_current = rw versions trial.confirmed_current;
  }

  initialize-Overwrites : Overwrites (initialize s)
  unfolding initialize
  initialize-Overwrites d trial = (
    trial-IsOnTrial d (initialize s d) trial refl refl,
    (initialized, rw (same_slot_self s), refl),
  )

  write_journal-Overwrites :
      (j : JournalState) → is_incomplete j ≡ true → Overwrites (write_journal s j)
  unfolding write_journal
  write_journal-Overwrites j h d trial =
      (trial-IsOnTrial d (write_journal s j d) trial refl refl, (j, rw (same_slot_self s), h))

  replicate-Overwrites : (n : ℕ) → All Overwrites (replicate n (write_journal s programmed))
  replicate-Overwrites zero = tt
  replicate-Overwrites (suc n) = (write_journal-Overwrites programmed refl, replicate-Overwrites n)

  flashing-Overwrites : (pages : ℕ) → All Overwrites (flashing s pages)
  flashing-Overwrites pages = (
    initialize-Overwrites,
    (
      write_journal-Overwrites prepared refl,
      (write_journal-Overwrites erased refl, replicate-Overwrites pages),
    ),
  )

  take-Overwrites :
      (n : ℕ) (fs : List (Device → Device)) → All Overwrites fs → All Overwrites (take n fs)
  take-Overwrites zero fs h = tt
  take-Overwrites (suc n) [] h = tt
  take-Overwrites (suc n) (f ∷ fs) (h, hs) = (h, take-Overwrites n fs hs)

  apply_all-Overwrites :
      (f : Device → Device) (fs : List (Device → Device))
      → Overwrites f
      → All Overwrites fs
      → Overwrites (apply_all (f ∷ fs))
  apply_all-Overwrites f [] h hs d trial = h d trial
  apply_all-Overwrites f (g ∷ fs) h (hg, hs) d trial =
      apply_all-Overwrites g fs hg hs (f d) (h d trial).0

reboot-IsHalfWritten :
    (s : Slot) (v : SemVer) (x : Slot) (version : SemVer) (d : Device)
    → IsOnTrial x version s v d
    → other x ≡ s
    → IsHalfWritten s d
    → IsHalfWritten s (reboot d)
unfolding reboot set_active_slot_control_blocks update_control_block update_journal
    should_rollback_pending
reboot-IsHalfWritten a v a version d trial h (j, e, half) = cc
reboot-IsHalfWritten b v b version d trial h (j, e, half) = cc
reboot-IsHalfWritten a v b version d trial h (j, e, half) = (j, ground arith, half)
reboot-IsHalfWritten b v a version d trial h (j, e, half) = (j, ground arith, half)

-- While an image is on trial in the slot that is not the confirmed one, an installation that stops after
-- the first of its records or later, but before the image is staged, and the reboot that follows: the ECU
-- runs the confirmed version from its slot, confirmed and with nothing pending, although the journal of that
-- very slot says that flashing it has begun and not ended.
pub interrupted_install-breaks_fallback :
    (s : Slot) (v : SemVer) (x : Slot) (version : SemVer) (n pages : ℕ)
    (firmware_file target : String) (version' : SemVer) (d : Device)
    → IsOnTrial x version s v d
    → other x ≡ s
    → n < length (flashing s pages)
    → IsSettled s v (reboot (interrupted_install (suc n) pages firmware_file target version' d))
      × IsHalfWritten s (reboot (interrupted_install (suc n) pages firmware_file target version' d))
unfolding interrupted_install inactive_slot
interrupted_install-breaks_fallback s v x version n pages firmware_file target version' d trial h
      early =
    let stage = staging s firmware_file target version' in
    let slot : inactive_slot d.slots ≡ s = ap other trial.active ∙ h in
    let records : interrupted_install (suc n) pages firmware_file target version' d
        ≡ apply_all (take (suc n) (flashing s pages)) d =
      ap
        (λ t.
          apply_all (take (suc n) (flashing t pages ++ staging t firmware_file target version')) d)
        slot
      ∙ ap (λ fs. apply_all fs d)
          (take-append_left (suc n) (flashing s pages) stage (omega arith)) in
    let (first, others) =
      take-Overwrites x version s v (suc n) (flashing s pages)
        (flashing-Overwrites x version s v pages) in
    let (trial', half) = apply_all-Overwrites x version s v (initialize s) _ first others d trial in
    rw records (
      reboot-ends_trial s v x version (apply_all (take (suc n) (flashing s pages)) d) trial',
      reboot-IsHalfWritten s v x version (apply_all (take (suc n) (flashing s pages)) d) trial' h
          half,
    )
