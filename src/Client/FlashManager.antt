-- ===== src/Client/FlashManager.antt =====
-- FlashManager (transport/uds/flash_manager.py) and UDSClient.flash_firmware
-- (transport/uds/client.py), over a transport. The progress bar is left out.
use virtual_automotive_ota_d.Prelude.{
  ℕ, zero, suc, ◌+◌, Bool, true, false, not, [], ◌∷◌, leb, ◌==◌, if◌then◌else◌, length, take, drop,
  low_bits, Bytes, runtime_error, zero_division_error,
}
use virtual_automotive_ota_d.Client.Exec.{Exec, pure, raise, unless, ◌>>=◌, ◌>>◌}

-- What FlashManager and UDSClient use of transport/base.py. `confirmed` is what `wait_for_boot` and
-- `read_software_version` tell after the reset: whether the boot was seen, and whether the version is
-- the package's.
pub record Transport (W : Type 0) : Type 0 where
  pub max_transfer_payload : ℕ
  pub diagnostic_session_control : Exec W Bool
  pub tester_present : Exec W Bool
  pub request_seed : Exec W Bytes
  pub send_key : Bytes → Exec W Bool
  pub erase_memory : ℕ → Exec W Bool
  pub request_download : ℕ → Exec W Bool
  pub transfer_data : ℕ → Bytes → Exec W Bool
  pub request_transfer_exit : Exec W Bool
  pub verify_programming : Exec W Bool
  pub activate_image : Exec W Bool
  pub ecu_reset : Exec W Bool
  pub wait_for_boot : Exec W Bool
  pub same_version : Exec W Bool

module _ {W : Type 0} (t : Transport W) where
  unfoldable pub enter_programming : Exec W Bool
  enter_programming = do
    entered ← t.diagnostic_session_control
    unless entered (runtime_error "Failed to enter programming session")
    t.tester_present
    seed ← t.request_seed
    unless (not (leb (length seed) 0)) (runtime_error "SecurityAccess seed request failed")
    unlocked ← t.send_key seed
    unless unlocked (runtime_error "SecurityAccess key exchange failed")
    pure true

  -- `for i in range(0, total_size, chunk_size)`, on the bytes that are left; the value that
  -- `transport.transfer_data` returns is not looked at. The fuel is the number of bytes or more.
  unfoldable pub transfer_blocks : ℕ → ℕ → Bytes → Exec W (Unit {0})
  transfer_blocks fuel seq [] = pure tt
  transfer_blocks zero seq (b ∷ bs) = pure tt
  transfer_blocks (suc fuel) seq (b ∷ bs) =
      t.transfer_data seq (take t.max_transfer_payload (b ∷ bs)) >>= λ _.
      transfer_blocks fuel (low_bits (seq + 1) 8) (drop t.max_transfer_payload (b ∷ bs))

  -- The number of chunks is computed first, which divides by the chunk size.
  unfoldable pub transfer_data : Bytes → Exec W Bool
  transfer_data firmware =
      if t.max_transfer_payload == 0
      then raise zero_division_error
      else (transfer_blocks (length firmware) 1 firmware >> pure true)

  unfoldable pub transfer_exit : Exec W Bool
  transfer_exit = do
    left ← t.request_transfer_exit
    if not left then pure false else do
      verified ← t.verify_programming
      if not verified then pure false else t.activate_image

  -- `flash_firmware` up to the reset.
  unfoldable pub program_firmware : Bytes → Exec W (Unit {0})
  program_firmware firmware = do
    enter_programming
    erased ← t.erase_memory (length firmware)
    unless erased (runtime_error "Erase routine failed")
    accepted ← t.request_download (length firmware)
    unless accepted (runtime_error "Request download rejected")
    transferred ← transfer_data firmware
    unless transferred (runtime_error "Transfer data failed")
    left ← transfer_exit
    unless left (runtime_error "Request transfer exit failed")
    was_reset ← t.ecu_reset
    unless was_reset (runtime_error "ECU reset failed")

  unfoldable pub flash_firmware : Bytes → Exec W Bool
  flash_firmware firmware = do
    program_firmware firmware
    booted ← t.wait_for_boot
    unless booted (runtime_error "Post-reset boot confirmation failed")
    same ← t.same_version
    unless same (runtime_error "Post-reset version readback mismatch")
    pure true
