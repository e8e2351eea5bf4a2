-- ===== src/Ecu/Versions.antt =====
-- VersionManager (ecus/base/version_manager.py) over SemVer (common/utils.py). An operation takes the
-- version that `normalize_version` has parsed, an invalid text raises before anything is read; the
-- empty string in `pending_version` and `pending_slot` is `none`.
use virtual_automotive_ota_d.Prelude.{ℕ, ◌+◌, Bool, true, false, Option, none, some, String}
use virtual_automotive_ota_d.Ecu.Slots.{Slot, a}

pub record SemVer : Type 0 where
  pub major : ℕ
  pub minor : ℕ
  pub patch : ℕ

pub record Versions : Type 0 where
  pub current_version : SemVer
  pub confirmed_version : SemVer
  pub pending_version : Option SemVer
  pub active_slot : Slot
  pub confirmed_slot : Slot
  pub pending_slot : Option Slot
  pub pending_commit : Bool
  pub boot_attempts : ℕ
  pub last_boot_outcome : String
  pub rollback_reason : String

abbrev pub first_version : SemVer
first_version = record { major = 1; minor = 0; patch = 0 }

-- `_default_state`
abbrev pub default_versions : Versions
default_versions = record {
  current_version = first_version;
  confirmed_version = first_version;
  pending_version = none;
  active_slot = a;
  confirmed_slot = a;
  pending_slot = none;
  pending_commit = false;
  boot_attempts = 0;
  last_boot_outcome = "CONFIRMED";
  rollback_reason = "";
}

-- data.get("pending_slot") or data.get("active_slot", "A")
abbrev pub slot_or : Option Slot → Slot → Slot
slot_or none active = active
slot_or (some pending) active = pending

unfoldable pub update_version : SemVer → Versions → Versions
update_version new v = record v {
  current_version = new;
  confirmed_version = new;
  pending_version = none;
  pending_slot = none;
  pending_commit = false;
  boot_attempts = 0;
  last_boot_outcome = "CONFIRMED";
  rollback_reason = "";
}

-- The installer always names a slot; without one the pending slot and commit stay as they are.
abbrev pub with_pending_slot : Option Slot → Versions → Versions
with_pending_slot none v = v
with_pending_slot (some slot) v = record v { pending_slot = some slot; pending_commit = true }

unfoldable pub set_pending_version : SemVer → Option Slot → Versions → Versions
set_pending_version version slot v =
    record (with_pending_slot slot (record v { pending_version = some version })) {
      boot_attempts = 0;
      last_boot_outcome = "PENDING_REBOOT";
      rollback_reason = "";
    }

unfoldable pub confirm_version : SemVer → Versions → Versions
confirm_version version v = record v {
  current_version = version;
  confirmed_version = version;
  pending_version = none;
  active_slot = slot_or v.pending_slot v.active_slot;
  confirmed_slot = slot_or v.pending_slot v.active_slot;
  pending_slot = none;
  pending_commit = false;
  boot_attempts = 0;
  last_boot_outcome = "CONFIRMED";
  rollback_reason = "";
}

unfoldable pub boot_pending_version : Versions → Versions
boot_pending_version v = elim v.pending_version [
  | none ↦ v
  | some pending ↦ record v {
    current_version = pending;
    active_slot = slot_or v.pending_slot v.active_slot;
    pending_commit = true;
    boot_attempts = v.boot_attempts + 1;
    last_boot_outcome = "PENDING_COMMIT";
  }
]

unfoldable pub rollback_pending_version : String → Versions → Versions
rollback_pending_version reason v = record v {
  current_version = v.confirmed_version;
  pending_version = none;
  pending_slot = none;
  active_slot = v.confirmed_slot;
  pending_commit = false;
  boot_attempts = 0;
  last_boot_outcome = "ROLLED_BACK";
  rollback_reason = reason;
}
