-- ===== src/Client/Bench.antt =====
-- The server of an ECU at the other end of the client's link, and what it does on each request of the
-- programming sequence.
use virtual_automotive_ota_d.Prelude.{
  ℕ, suc, ◌+◌, ◌-◌, ◌%◌, ◌^◌, ◌≤◌, ◌<◌, ◌≡◌, refl, Bool, true, false, none, some, All, [], ◌∷◌,
  ◌++◌, length, Bytes, ok, arith, be32, take_all, length-append, ==_self,
}
use virtual_automotive_ota_d.Uds.Codec.{positive_response_sid, is_response_pending}
use virtual_automotive_ota_d.Programmer.State.{
  Programmer, Env, response, saved, install, Handled, require_programming_session, firmware_data,
  touch_session, expire_session_if_needed, after_pending,
}
use virtual_automotive_ota_d.Programmer.Session.{
  diagnostic_session_control, tester_present, request_seed, send_key, accept_key, security_access,
  next_seed_counter, seed_number, same_bytes,
}
use virtual_automotive_ota_d.Programmer.Flashing.{
  erase_memory, verify_image, activate_image, routine_control, start_download, request_download,
  accept_block, transfer_data, save_and_verify, request_transfer_exit, ecu_reset,
}
use virtual_automotive_ota_d.Programmer.Server.{handle_uds, dispatch}
use virtual_automotive_ota_d.Exchange.{is_response_for_request, ends_pending}
use virtual_automotive_ota_d.Exchange.Delivers.{IsSendable}
use virtual_automotive_ota_d.Client.Vehicle.{responses}
use virtual_automotive_ota_d.Client.CanSender.{expect_positive_response}

same_bytes_self : (xs : Bytes) → same_bytes xs xs ≡ true
same_bytes_self [] = refl
same_bytes_self (x ∷ xs) = ground (arith, same_bytes_self xs)

-- The request is answered: its responses fit one frame each, and they end in the positive one.
pub record Answers (k sid : ℕ) (h : Handled) (r : Bytes) : Type 0 where
  pub alive : h.raised ≡ none
  pub answer : expect_positive_response (suc (suc k)) sid (responses h.events) ≡ ok r
  pub short : All IsSendable (responses h.events)
  pub ends : ends_pending sid (responses h.events) ≡ true

pub record Enabled (e : Env) : Type 0 where
  pub diagnostics : e.diagnostics_enabled ≡ true
  pub programming : e.programming_enabled ≡ true

-- A programming session that has not expired when the request comes.
pub record InSession (e : Env) (p : Programmer) : Type 0 where
  pub session : p.current_session ≡ 2
  pub recent : e.expiry_clock - p.session_started_at ≤ 120000

-- A download of `n` bytes of which `done` have come; the block numbered `seq` is next.
pub record Downloading (p : Programmer) (n : ℕ) (done : Bytes) (seq : ℕ) : Type 0 where
  pub unlocked : p.security_unlocked ≡ true
  pub requested : p.download_requested ≡ true
  pub wanted : p.expected_size ≡ n
  pub announced : p.receiver.expected_size ≡ some n
  pub stored : p.receiver.buffer ≡ done
  pub counted : p.received_size ≡ length done
  pub sequence : p.expected_transfer_sequence ≡ seq
  pub not_started : p.install_started ≡ false

-- An image that was verified, and whether it is marked for activation.
pub record Verified (p : Programmer) (image : Bytes) (marked : Bool) : Type 0 where
  pub unlocked : p.security_unlocked ≡ true
  pub pending : p.install_pending ≡ true
  pub stored : p.receiver.buffer ≡ image
  pub activation : p.activation_marked ≡ marked
  pub not_started : p.install_started ≡ false

-- The seed that the server gives next.
abbrev pub next_seed : Programmer → Bytes
next_seed p = be32 (seed_number p.ecu_id (next_seed_counter p))

-- The session goes on and was touched by this request, and the ECU keeps its identifier.
pub record Continues (e : Env) (p : Programmer) (h : Handled) : Type 0 where
  pub named : h.state.ecu_id ≡ p.ecu_id
  pub session : h.state.current_session ≡ 2
  pub touched : h.state.session_started_at ≡ e.touch_clock

abbrev pub SameLock : Programmer → Handled → Type 0
SameLock p h = h.state.security_locked_until ≡ p.security_locked_until

firmware_data_all :
    (p : Programmer) (image : Bytes)
    → p.receiver.expected_size ≡ some (length image)
    → p.receiver.buffer ≡ image
    → firmware_data p.receiver ≡ image
unfolding firmware_data
firmware_data_all p image announced stored = ground (arith, take_all (length image) image)

save_and_verify_same :
    (e : Env) (p : Programmer) (image : Bytes)
    → e.original ≡ ok image
    → firmware_data p.receiver ≡ image
    → save_and_verify e p ≡ record {
      state = record p { install_pending = true; download_requested = false };
      events = saved image ∷ response (0x77 ∷ []) ∷ [];
      raised = none;
    }
save_and_verify_same e p image o d =
    unfold save_and_verify in rw (o, save_and_verify, d, ==_self (e.sha256 image))

module _ (k : ℕ) (e : Env) (p : Programmer) (on : Enabled e) where
  abbrev enter : Handled
  enter = handle_uds e p (0x10 ∷ 0x02 ∷ [])

  pub enter_lem : Answers k 0x10 enter (0x50 ∷ 0x02 ∷ []) × Continues e p enter × SameLock p enter
  unfolding handle_uds dispatch diagnostic_session_control expect_positive_response
      is_response_pending ends_pending is_response_for_request
  enter_lem = ground arith

  module _ (s : InSession e p) where
    abbrev present : Handled
    present = handle_uds e p (0x3E ∷ 0x00 ∷ [])

    pub present_lem :
        Answers k 0x3E present (0x7E ∷ 0x00 ∷ []) × Continues e p present × SameLock p present
    unfolding handle_uds dispatch tester_present expect_positive_response is_response_pending
        ends_pending is_response_for_request
    present_lem = ground arith

    abbrev seed_request : Handled
    seed_request = handle_uds e p (0x27 ∷ 0x01 ∷ [])

    pub seed_lem :
        p.security_locked_until ≤ e.security_clock
        → Answers k 0x27 seed_request (0x67 ∷ 0x01 ∷ next_seed p)
          × Continues e p seed_request
          × (seed_request.state.pending_seed ≡ next_seed p)
    unfolding handle_uds dispatch security_access require_programming_session request_seed
        expect_positive_response is_response_pending ends_pending is_response_for_request
    seed_lem h = ground arith

    abbrev key_request : Bytes → Handled
    key_request key = handle_uds e p (0x27 ∷ 0x02 ∷ key)

    pub key_lem :
        (key : Bytes)
        → 0 < length p.pending_seed
        → e.derive_key p.pending_seed ≡ ok key
        → Answers k 0x27 (key_request key) (0x67 ∷ 0x02 ∷ [])
          × Continues e p (key_request key)
          × ((key_request key).state.security_unlocked ≡ true)
    unfolding handle_uds dispatch security_access require_programming_session send_key accept_key
        expect_positive_response is_response_pending ends_pending is_response_for_request
    key_lem key h d = ground (arith, same_bytes_self key)

    module _ (u : p.security_unlocked ≡ true) where
      abbrev erase_request : ℕ → Handled
      erase_request size = handle_uds e p (0x31 ∷ 0x01 ∷ 0xFF ∷ 0x00 ∷ be32 size)

      pub erase_lem :
          (size : ℕ)
          → Answers k 0x31 (erase_request size) (0x71 ∷ 0x01 ∷ 0xFF ∷ 0x00 ∷ [])
            × Continues e p (erase_request size)
            × ((erase_request size).state.security_unlocked ≡ true)
            × ((erase_request size).state.erase_completed ≡ true)
      unfolding handle_uds dispatch routine_control require_programming_session erase_memory
          expect_positive_response is_response_pending ends_pending is_response_for_request
      erase_lem size = ground arith

      abbrev download_request : ℕ → Handled
      download_request size = handle_uds e p ((0x34 ∷ 0x00 ∷ 0x44 ∷ be32 0) ++ be32 size)

      pub download_lem :
          (size : ℕ)
          → size < 2 ^ 32
          → p.erase_completed ≡ true
          → Answers k 0x34 (download_request size) (0x74 ∷ 0x00 ∷ 0x44 ∷ 0x00 ∷ 0x40 ∷ [])
            × Continues e p (download_request size)
            × Downloading (download_request size).state size [] 1
      unfolding request_download start_download handle_uds dispatch require_programming_session
          expect_positive_response is_response_pending ends_pending is_response_for_request
      download_lem size h er = ground arith

    abbrev block_request : ℕ → Bytes → Handled
    block_request seq block = handle_uds e p (0x36 ∷ seq ∷ block)

    pub block_lem :
        (n : ℕ) (done : Bytes) (seq : ℕ) (block : Bytes)
        → Downloading p n done seq
        → seq < 256
        → 0 < length block
        → length done + length block ≤ n
        → Answers k 0x36 (block_request seq block) (0x76 ∷ seq ∷ [])
          × Continues e p (block_request seq block)
          × Downloading (block_request seq block).state n (done ++ block) ((seq + 1) % 256)
    unfolding transfer_data accept_block handle_uds dispatch require_programming_session
        expect_positive_response is_response_pending ends_pending is_response_for_request
    block_lem n done seq block d hs h0 hn =
        ground (arith, take_all (n - length done) block, length-append done block)

    abbrev exit_request : Handled
    exit_request = handle_uds e p (0x37 ∷ [])

    abbrev touched_now : Programmer
    touched_now = touch_session e (expire_session_if_needed e p)

    exit_reaches :
        (image : Bytes) (seq : ℕ)
        → Downloading p (length image) image seq
        → exit_request ≡ after_pending 0x37 (save_and_verify e touched_now)
    unfolding request_transfer_exit handle_uds dispatch require_programming_session
    exit_reaches image seq d = ground arith

    touched_now-Downloading :
        (n : ℕ) (image : Bytes) (seq : ℕ)
        → Downloading p n image seq
        → Downloading touched_now n image seq
          × (touched_now.current_session ≡ 2)
          × (touched_now.session_started_at ≡ e.touch_clock)
          × (touched_now.activation_marked ≡ p.activation_marked)
          × (touched_now.ecu_id ≡ p.ecu_id)
    unfolding touch_session expire_session_if_needed
    touched_now-Downloading n image seq d = ground arith

    pub exit_lem :
        (image : Bytes) (seq : ℕ)
        → Downloading p (length image) image seq
        → e.original ≡ ok image
        → Answers k 0x37 exit_request (0x77 ∷ [])
          × Continues e p exit_request
          × Verified exit_request.state image p.activation_marked
    unfolding expect_positive_response is_response_pending positive_response_sid ends_pending
        is_response_for_request
    exit_lem image seq d o =
        let q = touched_now-Downloading (length image) image seq d in
        let full = firmware_data_all touched_now image q.0.announced q.0.stored in
        rw (exit_reaches image seq d, save_and_verify_same e touched_now image o full)
          (
            record {
              alive = refl;
              answer = refl;
              short = ((omega arith, omega arith), ((omega arith, omega arith), tt));
              ends = refl;
            },
            record { named = q.4; session = q.1; touched = q.2 },
            record {
              unlocked = q.0.unlocked;
              pending = refl;
              stored = q.0.stored;
              activation = q.3;
              not_started = q.0.not_started;
            },
          )

    module _ (image : Bytes) (marked : Bool) (v : Verified p image marked) where
      abbrev verify_request : Handled
      verify_request = handle_uds e p (0x31 ∷ 0x01 ∷ 0xFF ∷ 0x01 ∷ [])

      pub verify_lem :
          Answers k 0x31 verify_request (0x71 ∷ 0x01 ∷ 0xFF ∷ 0x01 ∷ [])
          × Continues e p verify_request
          × Verified verify_request.state image marked
      unfolding routine_control verify_image handle_uds dispatch require_programming_session
          expect_positive_response is_response_pending ends_pending is_response_for_request
      verify_lem = ground arith

      abbrev activate_request : Handled
      activate_request = handle_uds e p (0x31 ∷ 0x01 ∷ 0xFF ∷ 0x02 ∷ [])

      pub activate_lem :
          Answers k 0x31 activate_request (0x71 ∷ 0x01 ∷ 0xFF ∷ 0x02 ∷ [])
          × Continues e p activate_request
          × Verified activate_request.state image true
      unfolding routine_control activate_image handle_uds dispatch require_programming_session
          expect_positive_response is_response_pending ends_pending is_response_for_request
      activate_lem = ground arith

    abbrev reset_request : Handled
    reset_request = handle_uds e p (0x11 ∷ 0x01 ∷ [])

    pub reset_lem :
        (image : Bytes)
        → Verified p image true
        → Answers k 0x11 reset_request (0x51 ∷ 0x01 ∷ [])
          × (reset_request.events ≡ response (0x51 ∷ 0x01 ∷ []) ∷ install ∷ [])
          × (reset_request.state.receiver.buffer ≡ image)
    unfolding ecu_reset handle_uds dispatch require_programming_session expect_positive_response
        is_response_pending ends_pending is_response_for_request
    reset_lem image v = ground arith
