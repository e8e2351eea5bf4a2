-- ===== src/Ecu/Reboot.antt =====
-- RebootManager.reboot (ecus/base/reboot_manager.py), the confirmation of a boot by the post-install
-- validator (tcu/post_install_validator.py), and the records that FirmwareInstaller.install
-- (ecus/base/installer.py) writes, in their order.
use virtual_automotive_ota_d.Prelude.{ℕ, ◌+◌, Bool, ◌&&◌, String, if◌then◌else◌}
use virtual_automotive_ota_d.Ecu.Slots.{
  Slots, activate_pending, commit_pending, rollback_pending, should_rollback_pending,
  pending_journal_requires_recovery,
}
use virtual_automotive_ota_d.Ecu.Versions.{
  SemVer, Versions, confirm_version, boot_pending_version, rollback_pending_version,
}

pub record EcuState : Type 0 where
  pub current_version : SemVer
  pub firmware_status : String
  pub reboot_count : ℕ
  pub last_install_result : String

-- One ECU: its state object, and its files.
pub record Device : Type 0 where
  pub ecu_state : EcuState
  pub slots : Slots
  pub versions : Versions

-- The two rollbacks with one reason, as reboot and the validator do them.
unfoldable pub roll_back : String → Device → Device
unfolding rollback_pending_version rollback_pending
roll_back reason d = record d {
  slots = rollback_pending reason d.slots;
  versions = rollback_pending_version reason d.versions;
}

unfoldable pub reboot_rolled_back : String → Device → Device
unfolding roll_back
reboot_rolled_back reason d =
    let r = roll_back reason d in
    record r {
      ecu_state = record {
        current_version = r.versions.current_version;
        firmware_status = "ROLLED_BACK";
        reboot_count = d.ecu_state.reboot_count + 1;
        last_install_result = "ROLLBACK";
      };
    }

unfoldable pub boot_pending : Device → Device
unfolding boot_pending_version
boot_pending d =
    let v = if d.versions.pending_commit then boot_pending_version d.versions else d.versions in
    record {
      slots = activate_pending d.slots;
      versions = v;
      ecu_state = record (d.ecu_state) {
        current_version = v.current_version;
        reboot_count = d.ecu_state.reboot_count + 1;
        firmware_status = "PENDING_COMMIT";
      };
    }

unfoldable pub reboot : Device → Device
unfolding reboot_rolled_back boot_pending
reboot d =
    if pending_journal_requires_recovery d.slots
    then reboot_rolled_back "INCOMPLETE_FLASH_JOURNAL" d
    else if d.versions.pending_commit && should_rollback_pending d.slots
    then reboot_rolled_back "BOOT_ATTEMPT_LIMIT_EXCEEDED" d
    else boot_pending d

-- The validator's step for one ECU, whose discovered version `actual` is the expected one or not.
unfoldable pub validate_boot : Bool → SemVer → Device → Device
unfolding roll_back confirm_version commit_pending
validate_boot passed actual d =
    if d.versions.pending_commit
    then (if passed
        then record d {
          versions = confirm_version actual d.versions;
          slots = commit_pending d.slots;
        }
        else roll_back "POST_INSTALL_VALIDATION_FAILED" d)
    else d
