-- ===== src/Ecu/Install.antt =====
-- The records that FirmwareInstaller.install (ecus/base/installer.py) leaves in the files of an ECU, in
-- their order, so that a run which stops between two of them can be followed by a reboot. A call that
-- writes one or more files is one record; the flash memory's bytes and the staged file are left out.
pub mod Settled
pub mod Recovery
pub mod Trial
use virtual_automotive_ota_d.Prelude.{
  ℕ, Bool, true, false, Option, none, some, String, List, [], ◌∷◌, ◌++◌, replicate, take,
}
use virtual_automotive_ota_d.Ecu.Slots.{
  Slot, Slots, ControlBlock, JournalState, initialized, prepared, erased, programmed, verified,
  pending_activation, in_directory, write_control_block, inactive_slot, mark_pending,
}
use virtual_automotive_ota_d.Ecu.Versions.{SemVer, set_pending_version}
use virtual_automotive_ota_d.Ecu.Reboot.{Device}

-- FlashMemoryEmulator.update_journal on the directory that the installer writes
unfoldable pub write_journal : Slot → JournalState → Device → Device
write_journal slot state d = record d {
  slots = in_directory slot (λ x. record x { journal = some state }) d.slots;
}

-- FlashMemoryEmulator.initialize
unfoldable pub initialize : Slot → Device → Device
initialize slot d = record d {
  slots =
      in_directory slot
        (λ x. record {
          has_layout = true;
          journal = some initialized;
          control =
              write_control_block
                (record {
                  bootable = some false;
                  confirmed = some false;
                  active = some false;
                  rollback_reason = some "";
                })
                x.control;
        })
        d.slots;
}

-- The control block of the staged image.
unfoldable pub write_staged : Slot → Device → Device
write_staged slot d = record d {
  slots =
      in_directory slot
        (λ x. record x {
          control =
              write_control_block
                (record {
                  bootable = some true;
                  confirmed = some false;
                  active = some false;
                  rollback_reason = some "";
                })
                x.control;
        })
        d.slots;
}

unfoldable pub write_slot_pending : Slot → String → String → Device → Device
unfolding mark_pending
write_slot_pending slot firmware_file target d = record d {
  slots = mark_pending slot firmware_file target d.slots;
}

unfoldable pub write_version_pending : Slot → SemVer → Device → Device
unfolding set_pending_version
write_version_pending slot version d = record d {
  versions = set_pending_version version (some slot) d.versions;
}

-- Up to the last page: nothing but the directory of the slot is written.
abbrev pub flashing : Slot → ℕ → List (Device → Device)
flashing slot pages =
    initialize slot
    ∷ write_journal slot prepared
    ∷ write_journal slot erased
    ∷ replicate pages (write_journal slot programmed)

-- From the staging on; `verified` stands where the read-back and the digest were right.
abbrev pub staging : Slot → String → String → SemVer → List (Device → Device)
staging slot firmware_file target version =
    write_staged slot
    ∷ write_slot_pending slot firmware_file target
    ∷ write_version_pending slot version
    ∷ write_journal slot verified
    ∷ write_journal slot pending_activation
    ∷ []

abbrev pub apply_all : List (Device → Device) → Device → Device
apply_all [] d = d
apply_all (f ∷ fs) d = apply_all fs (f d)

-- The installation that stops after its first `n` records.
unfoldable pub interrupted_install : ℕ → ℕ → String → String → SemVer → Device → Device
unfolding inactive_slot
interrupted_install n pages firmware_file target version d =
    let slot = inactive_slot d.slots in
    apply_all (take n (flashing slot pages ++ staging slot firmware_file target version)) d
