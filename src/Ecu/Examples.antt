-- ===== src/Ecu/Examples.antt =====
-- An ECU of the default state, and one that tries version 2.0.0 from its second slot.
use virtual_automotive_ota_d.Prelude.{refl, true, false, none, some, arith}
use virtual_automotive_ota_d.Ecu.Slots.{a, b, default_state, inactive_slot}
use virtual_automotive_ota_d.Ecu.Versions.{SemVer, first_version, default_versions}
use virtual_automotive_ota_d.Ecu.Reboot.{Device, reboot, validate_boot}
use virtual_automotive_ota_d.Ecu.Install.{interrupted_install}
use virtual_automotive_ota_d.Ecu.Install.Settled.{IsSettled, IsOnTrial}
use virtual_automotive_ota_d.Ecu.Install.Recovery.{
  Recovered, interrupted_install-recovers, trial-ends,
}
use virtual_automotive_ota_d.Ecu.Install.Trial.{IsHalfWritten, interrupted_install-breaks_fallback}

abbrev second_version : SemVer
second_version = record { major = 2; minor = 0; patch = 0 }

abbrev fresh : Device
fresh = record {
  ecu_state = record {
    current_version = first_version;
    firmware_status = "ACTIVE";
    reboot_count = 0;
    last_install_result = "NONE";
  };
  slots = record {
    state = default_state;
    directory = λ slot. record {
      has_layout = false;
      journal = none;
      control = record { bootable = none; confirmed = none; active = none; rollback_reason = none };
    };
  };
  versions = default_versions;
}

fresh-IsSettled : IsSettled a first_version fresh
fresh-IsSettled = record {
  no_pending_slot = refl;
  active = refl;
  confirmed = refl;
  once = refl;
  no_pending_version = refl;
  no_pending_commit = refl;
  version_active = refl;
  version_confirmed = refl;
  current = refl;
  confirmed_current = refl;
}

abbrev on_trial : Device
on_trial = record fresh {
  slots = record (fresh.slots) {
    state = record default_state { active_slot = b; pending_slot = some b; boot_attempts = 1 };
  };
  versions = record default_versions {
    current_version = second_version;
    pending_version = some second_version;
    active_slot = b;
    pending_slot = some b;
    pending_commit = true;
    boot_attempts = 1;
  };
}

on_trial-IsOnTrial : IsOnTrial b second_version a first_version on_trial
on_trial-IsOnTrial = record {
  pending_slot = refl;
  active = refl;
  confirmed = refl;
  once = refl;
  booted = refl;
  version_pending = refl;
  pending_commit = refl;
  version_active = refl;
  version_confirmed = refl;
  current = refl;
  confirmed_current = refl;
}

-- Power is lost after the slot was marked, before the version was.
interrupted_install-recovers_example :
    Recovered a first_version
      (inactive_slot fresh.slots)
      second_version
      (reboot (interrupted_install 7 2 "bcm_v2.bin" "2.0.0" second_version fresh))
interrupted_install-recovers_example =
    interrupted_install-recovers a first_version 7 2 "bcm_v2.bin" "2.0.0" second_version fresh
      fresh-IsSettled

trial-ends_example :
    IsSettled a first_version (reboot on_trial)
    × IsSettled b second_version (validate_boot true second_version on_trial)
    × IsSettled a first_version (validate_boot false second_version on_trial)
trial-ends_example =
    trial-ends a first_version b second_version second_version on_trial on_trial-IsOnTrial

abbrev third_version : SemVer
third_version = record { major = 3; minor = 0; patch = 0 }

abbrev broken : Device
broken = reboot (interrupted_install 3 4 "bcm_v3.bin" "3.0.0" third_version on_trial)

interrupted_install-breaks_fallback_example :
    IsSettled a first_version broken × IsHalfWritten a broken
interrupted_install-breaks_fallback_example =
    interrupted_install-breaks_fallback a first_version b second_version 2 4 "bcm_v3.bin" "3.0.0"
      third_version on_trial on_trial-IsOnTrial refl (omega arith)
