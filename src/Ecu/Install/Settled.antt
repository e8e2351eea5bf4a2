-- ===== src/Ecu/Install/Settled.antt =====
-- An ECU between installations, one that tries a new image, and what single records and a reboot make
-- of them.
use virtual_automotive_ota_d.Prelude.{
  ◌≡◌, inl, inr, refl, true, false, none, some, String, arith, Bool-cases,
}
use virtual_automotive_ota_d.Ecu.Slots.{
  Slot, a, b, Slots, JournalState, is_incomplete, same_slot, Directory, in_directory,
  activate_pending, should_rollback_pending, pending_journal_requires_recovery,
  update_control_block, update_journal, set_active_slot_control_blocks,
}
use virtual_automotive_ota_d.Ecu.Versions.{SemVer, boot_pending_version}
use virtual_automotive_ota_d.Ecu.Reboot.{Device, reboot}
use virtual_automotive_ota_d.Ecu.Install.{
  write_journal, initialize, write_staged, write_slot_pending,
}

-- Nothing is pending, and slots and versions agree: the ECU runs version `v`, confirmed, from `s`.
pub record IsSettled (s : Slot) (v : SemVer) (d : Device) : Type 0 where
  pub no_pending_slot : d.slots.state.pending_slot ≡ none
  pub active : d.slots.state.active_slot ≡ s
  pub confirmed : d.slots.state.confirmed_slot ≡ s
  pub once : d.slots.state.max_boot_attempts ≡ 1
  pub no_pending_version : d.versions.pending_version ≡ none
  pub no_pending_commit : d.versions.pending_commit ≡ false
  pub version_active : d.versions.active_slot ≡ s
  pub version_confirmed : d.versions.confirmed_slot ≡ s
  pub current : d.versions.current_version ≡ v
  pub confirmed_current : d.versions.confirmed_version ≡ v

-- The ECU runs version `v` from slot `s`, not confirmed; `s0` and `v0` are what it falls back to.
pub record IsOnTrial (s : Slot) (v : SemVer) (s0 : Slot) (v0 : SemVer) (d : Device) : Type 0 where
  pub pending_slot : d.slots.state.pending_slot ≡ some s
  pub active : d.slots.state.active_slot ≡ s
  pub confirmed : d.slots.state.confirmed_slot ≡ s0
  pub once : d.slots.state.max_boot_attempts ≡ 1
  pub booted : d.slots.state.boot_attempts ≡ 1
  pub version_pending : d.versions.pending_slot ≡ some s
  pub pending_commit : d.versions.pending_commit ≡ true
  pub version_active : d.versions.active_slot ≡ s
  pub version_confirmed : d.versions.confirmed_slot ≡ s0
  pub current : d.versions.current_version ≡ v
  pub confirmed_current : d.versions.confirmed_version ≡ v0

-- Version `version` waits in slot `x` for its first boot.
pub record IsStaged (s : Slot) (v : SemVer) (x : Slot) (version : SemVer) (d : Device)
    : Type 0 where
  pub pending_slot : d.slots.state.pending_slot ≡ some x
  pub confirmed : d.slots.state.confirmed_slot ≡ s
  pub once : d.slots.state.max_boot_attempts ≡ 1
  pub booted : d.slots.state.boot_attempts ≡ 0
  pub pending_version : d.versions.pending_version ≡ some version
  pub version_pending : d.versions.pending_slot ≡ some x
  pub pending_commit : d.versions.pending_commit ≡ true
  pub version_confirmed : d.versions.confirmed_slot ≡ s
  pub confirmed_current : d.versions.confirmed_version ≡ v

module _ (s : Slot) (v : SemVer) (d : Device) (x : Slot) (settled : IsSettled s v d) where
  pub write_journal-IsSettled : (j : JournalState) → IsSettled s v (write_journal x j d)
  unfolding write_journal
  write_journal-IsSettled j = ground arith

  pub initialize-IsSettled : IsSettled s v (initialize x d)
  unfolding initialize
  initialize-IsSettled = ground arith

  pub write_staged-IsSettled : IsSettled s v (write_staged x d)
  unfolding write_staged
  write_staged-IsSettled = ground arith

pub reboot-IsSettled :
    (s : Slot) (v : SemVer) (d : Device) → IsSettled s v d → IsSettled s v (reboot d)
unfolding reboot pending_journal_requires_recovery should_rollback_pending activate_pending
reboot-IsSettled s v d settled = ground arith

-- The image may be there in part: the journal of slot `x` says so.
pub record IsFlashed (x : Slot) (d : Device) : Type 0 where
  pub state : JournalState
  pub journal : (d.slots.directory x).journal ≡ some state
  pub incomplete : is_incomplete state ≡ true

pub same_slot_self : (x : Slot) → same_slot x x ≡ true
same_slot_self a = refl
same_slot_self b = refl

pub in_directory_self :
    (x : Slot) (f : Directory → Directory) (s : Slots)
    → (in_directory x f s).directory x ≡ f (s.directory x)
in_directory_self x f s = rw (same_slot_self x)

module _ (x : Slot) (d : Device) where
  pub write_journal-journal :
      (j : JournalState) → ((write_journal x j d).slots.directory x).journal ≡ some j
  unfolding write_journal
  write_journal-journal j = rw (same_slot_self x)

  pub write_journal-IsFlashed :
      (j : JournalState) → is_incomplete j ≡ true → IsFlashed x (write_journal x j d)
  write_journal-IsFlashed j h = record {
    state = j;
    journal = write_journal-journal j;
    incomplete = h;
  }

  pub write_staged-IsFlashed : IsFlashed x d → IsFlashed x (write_staged x d)
  unfolding write_staged
  write_staged-IsFlashed f = record {
    state = f.state;
    journal = rw (same_slot_self x) f.journal;
    incomplete = f.incomplete;
  }

  pub write_slot_pending-IsFlashed :
      (firmware_file target : String)
      → IsFlashed x d
      → IsFlashed x (write_slot_pending x firmware_file target d)
  unfolding write_slot_pending update_control_block
  write_slot_pending-IsFlashed firmware_file target f = record {
    state = f.state;
    journal = elim (Bool-cases (d.slots.directory x).has_layout) [
      | inl h ↦ rw (same_slot_self x, h) f.journal
      | inr h ↦ rw (same_slot_self x, h) f.journal
    ];
    incomplete = f.incomplete;
  }

-- A reboot with an incomplete journal of the pending slot.
pub reboot-recovers :
    (s : Slot) (v : SemVer) (x : Slot) (d : Device)
    → d.slots.state.pending_slot ≡ some x
    → IsFlashed x d
    → d.slots.state.confirmed_slot ≡ s
    → d.slots.state.max_boot_attempts ≡ 1
    → d.versions.confirmed_slot ≡ s
    → d.versions.confirmed_version ≡ v
    → IsSettled s v (reboot d)
unfolding reboot set_active_slot_control_blocks update_control_block update_journal
reboot-recovers s v x d p f c m vc vv =
    let bad : pending_journal_requires_recovery d.slots ≡ true =
      unfold pending_journal_requires_recovery in rw (p, f.journal) f.incomplete in
    rw bad (record {
      no_pending_slot = refl;
      active = c;
      confirmed = c;
      once = m;
      no_pending_version = refl;
      no_pending_commit = refl;
      version_active = vc;
      version_confirmed = vc;
      current = vv;
      confirmed_current = vv;
    })

-- The first boot of an image whose journal is complete.
pub reboot-boots :
    (s : Slot) (v : SemVer) (x : Slot) (version : SemVer) (j : JournalState) (d : Device)
    → IsStaged s v x version d
    → (d.slots.directory x).journal ≡ some j
    → is_incomplete j ≡ false
    → IsOnTrial x version s v (reboot d)
unfolding reboot set_active_slot_control_blocks update_control_block update_journal
    should_rollback_pending activate_pending boot_pending_version
reboot-boots s v x version j d st journal complete =
    let good : pending_journal_requires_recovery d.slots ≡ false =
      unfold pending_journal_requires_recovery in rw (st.pending_slot, journal) complete in
    rw
      (
        good, st.pending_slot, st.booted, st.once, st.pending_commit, st.pending_version,
        st.version_pending,
      )
      (record {
        pending_slot = refl;
        active = refl;
        confirmed = st.confirmed;
        once = refl;
        booted = refl;
        version_pending = refl;
        pending_commit = refl;
        version_active = refl;
        version_confirmed = st.version_confirmed;
        current = refl;
        confirmed_current = st.confirmed_current;
      })
