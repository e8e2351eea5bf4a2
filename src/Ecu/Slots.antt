-- ===== src/Ecu/Slots.antt =====
-- SlotManager (ecus/base/slot_manager.py) and what it uses of FlashMemoryEmulator: the state file, and
-- the layout, journal and control block in the directory of each slot. A missing state file reads as
-- the default state; an empty string in `pending_slot` is `none`. Of the journal its state is kept, of
-- the control block the fields that are updated after the installation.
use virtual_automotive_ota_d.Prelude.{
  ℕ, ◌+◌, Bool, true, false, Option, none, some, String, leb, if◌then◌else◌,
}

pub data Slot : Type 0 where
  a b : Slot

abbrev pub other : Slot → Slot
other a = b
other b = a

abbrev pub same_slot : Slot → Slot → Bool
same_slot a a = true
same_slot a b = false
same_slot b a = false
same_slot b b = true

pub record SlotState : Type 0 where
  pub active_slot : Slot
  pub confirmed_slot : Slot
  pub previous_slot : Slot
  pub pending_slot : Option Slot
  pub pending_file : String
  pub pending_version : String
  pub boot_attempts : ℕ
  pub max_boot_attempts : ℕ
  pub rollback_reason : String
  pub last_transition : String

abbrev pub default_state : SlotState
default_state = record {
  active_slot = a;
  confirmed_slot = a;
  previous_slot = a;
  pending_slot = none;
  pending_file = "";
  pending_version = "";
  boot_attempts = 0;
  max_boot_attempts = 1;
  rollback_reason = "";
  last_transition = "INITIALIZED";
}

pub data JournalState : Type 0 where
  initialized prepared erased programmed verified pending_activation : JournalState
  booted_pending confirmed rolled_back : JournalState

-- INCOMPLETE_JOURNAL_STATES
abbrev pub is_incomplete : JournalState → Bool
is_incomplete initialized = true
is_incomplete prepared = true
is_incomplete erased = true
is_incomplete programmed = true
is_incomplete verified = false
is_incomplete pending_activation = false
is_incomplete booted_pending = false
is_incomplete confirmed = false
is_incomplete rolled_back = false

pub record ControlBlock : Type 0 where
  pub bootable : Option Bool
  pub confirmed : Option Bool
  pub active : Option Bool
  pub rollback_reason : Option String

-- The directory of one slot: whether the layout file is there, the journal and the control block.
pub record Directory : Type 0 where
  pub has_layout : Bool
  pub journal : Option JournalState
  pub control : ControlBlock

pub record Slots : Type 0 where
  pub state : SlotState
  pub directory : Slot → Directory

-- dict.update on one key
abbrev pub updated : {A : Type 0} → Option A → Option A → Option A
updated (some x) old = some x
updated none old = old

-- `write_control_block`
abbrev pub write_control_block : ControlBlock → ControlBlock → ControlBlock
write_control_block new old = record {
  bootable = updated new.bootable old.bootable;
  confirmed = updated new.confirmed old.confirmed;
  active = updated new.active old.active;
  rollback_reason = updated new.rollback_reason old.rollback_reason;
}

abbrev pub in_directory : Slot → (Directory → Directory) → Slots → Slots
in_directory slot f s = record s {
  directory = λ x. if same_slot x slot then f (s.directory x) else s.directory x;
}

unfoldable pub update_control_block : Slot → ControlBlock → Slots → Slots
update_control_block slot updates s =
    in_directory slot
      (λ d.
        if d.has_layout then record d { control = write_control_block updates d.control } else d)
      s

unfoldable pub update_journal : Slot → JournalState → Slots → Slots
update_journal slot state s =
    in_directory slot (λ d. if d.has_layout then record d { journal = some state } else d) s

abbrev pub activation_of : Slot → Bool → Slot → ControlBlock
activation_of active_slot is_confirmed slot =
    if same_slot slot active_slot
    then record {
      active = some true;
      confirmed = some is_confirmed;
      bootable = some true;
      rollback_reason = none;
    }
    else record {
      active = some false;
      confirmed = some false;
      bootable = none;
      rollback_reason = none;
    }

-- `for slot in (SLOT_A, SLOT_B)`
unfoldable pub set_active_slot_control_blocks : Slot → Bool → Slots → Slots
unfolding update_control_block
set_active_slot_control_blocks active_slot is_confirmed s =
    update_control_block b (activation_of active_slot is_confirmed b)
      (update_control_block a (activation_of active_slot is_confirmed a) s)

unfoldable pub inactive_slot : Slots → Slot
inactive_slot s = other s.state.active_slot

unfoldable pub mark_pending : Slot → String → String → Slots → Slots
mark_pending slot firmware_file version s =
    update_control_block slot
      (record {
        bootable = some true;
        confirmed = some false;
        active = some false;
        rollback_reason = some "";
      })
      (record s {
        state = record (s.state) {
          pending_slot = some slot;
          pending_file = firmware_file;
          pending_version = version;
          boot_attempts = 0;
          rollback_reason = "";
          last_transition = "STAGED";
        };
      })

unfoldable pub activate_pending : Slots → Slots
activate_pending s = elim s.state.pending_slot [
  | none ↦ s
  | some pending ↦ set_active_slot_control_blocks pending false (
      update_journal pending booted_pending (record s {
        state = record (s.state) {
          previous_slot = s.state.active_slot;
          active_slot = pending;
          boot_attempts = s.state.boot_attempts + 1;
          last_transition = "BOOTED_PENDING";
        };
      }))
]

unfoldable pub commit_pending : Slots → Slots
commit_pending s = set_active_slot_control_blocks s.state.active_slot true (
    update_journal s.state.active_slot confirmed (record s {
      state = record (s.state) {
        confirmed_slot = s.state.active_slot;
        pending_slot = none;
        pending_file = "";
        pending_version = "";
        boot_attempts = 0;
        rollback_reason = "";
        last_transition = "CONFIRMED";
      };
    }))

unfoldable pub rollback_pending : String → Slots → Slots
rollback_pending reason s = set_active_slot_control_blocks s.state.confirmed_slot true (
    update_control_block s.state.active_slot
      (record {
        bootable = some false;
        active = some false;
        confirmed = some false;
        rollback_reason = some reason;
      })
      (update_journal s.state.active_slot rolled_back (record s {
        state = record (s.state) {
          previous_slot = s.state.active_slot;
          active_slot = s.state.confirmed_slot;
          pending_slot = none;
          pending_file = "";
          pending_version = "";
          boot_attempts = 0;
          rollback_reason = reason;
          last_transition = "ROLLED_BACK";
        };
      })))

unfoldable pub should_rollback_pending : Slots → Bool
should_rollback_pending s = elim s.state.pending_slot [
  | none ↦ false
  | some pending ↦ leb s.state.max_boot_attempts s.state.boot_attempts
]

abbrev pub requires_recovery : Option JournalState → Bool
requires_recovery none = false
requires_recovery (some state) = is_incomplete state

unfoldable pub pending_journal_requires_recovery : Slots → Bool
pending_journal_requires_recovery s = elim s.state.pending_slot [
  | none ↦ false
  | some pending ↦ requires_recovery (s.directory pending).journal
]
