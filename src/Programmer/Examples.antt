-- ===== src/Programmer/Examples.antt =====
-- The programming server on concrete requests.
use virtual_automotive_ota_d.Prelude.{
  ◌+◌, ◌<◌, ◌≡◌, ◌⊎◌, refl, true, false, none, List, [], ◌∷◌, Bytes, ok, arith, from_be, map,
  replicate, All-map,
}
use virtual_automotive_ota_d.Programmer.State.{
  Programmer, Env, response, new, require_programming_session,
}
use virtual_automotive_ota_d.Programmer.Session.{security_access, send_key, accept_key, reject_key}
use virtual_automotive_ota_d.Programmer.Server.{handle_uds, dispatch, run}
use virtual_automotive_ota_d.Programmer.Server.Invariant.{IsValid, run-IsValid, new-IsValid}
use virtual_automotive_ota_d.Programmer.Server.Installs.{Reads, InstallsMatch, new-InstallsMatch}
use virtual_automotive_ota_d.Programmer.Server.Access.{SentKey, handle_uds-Unlocks}
use virtual_automotive_ota_d.Programmer.Server.Lockout.{lockout_holds}
use virtual_automotive_ota_d.Programmer.Server.Activation.{request_download-keeps_activation}
use virtual_automotive_ota_d.Programmer.Flashing.{request_download, start_download}
use virtual_automotive_ota_d.IsoTp.Receiver
use virtual_automotive_ota_d.IsoTp.Sender.{segment}
use virtual_automotive_ota_d.Programmer.Feed.{Node}
use virtual_automotive_ota_d.Programmer.Feed.Taken.{Requested}
use virtual_automotive_ota_d.Programmer.Feed.Requests.{flow_control_for, feed_frames-segment}
use virtual_automotive_ota_d.Programmer.Server.Locked.{NoProgress, handle_uds-NoProgress}

-- The key of a seed is the seed, the digest the number that the bytes spell.
abbrev env : Env
env = record {
  diagnostics_enabled = true;
  programming_enabled = true;
  expiry_clock = 1000;
  touch_clock = 1000;
  security_clock = 1000;
  version = [];
  derive_key = λ seed. ok seed;
  original = ok (0xCA ∷ 0xFE ∷ []);
  sha256 = from_be;
}

-- Session, seed, key, erase, request, one block, exit, activate, reset.
abbrev payloads : List Bytes
payloads =
    (0x10 ∷ 0x02 ∷ [])
    ∷ (0x27 ∷ 0x01 ∷ [])
    ∷ (0x27 ∷ 0x02 ∷ 0 ∷ 5 ∷ 0 ∷ 1 ∷ [])
    ∷ (0x31 ∷ 0x01 ∷ 0xFF ∷ 0x00 ∷ 0 ∷ 0 ∷ 0 ∷ 2 ∷ [])
    ∷ (0x34 ∷ 0x00 ∷ 0x44 ∷ 0 ∷ 0 ∷ 0 ∷ 0 ∷ 0 ∷ 0 ∷ 0 ∷ 2 ∷ [])
    ∷ (0x36 ∷ 1 ∷ 0xCA ∷ 0xFE ∷ [])
    ∷ (0x37 ∷ [])
    ∷ (0x31 ∷ 0x01 ∷ 0xFF ∷ 0x02 ∷ [])
    ∷ (0x11 ∷ 0x01 ∷ [])
    ∷ []

abbrev request : Bytes → Env × Bytes
request payload = (env, payload)

abbrev requests : List (Env × Bytes)
requests = map request payloads

-- A programming session in which two keys were wrong and a seed is pending.
abbrev seeded : Programmer
seeded = record (new 5) {
  current_session = 2;
  session_started_at = 900;
  pending_seed = 0 ∷ 5 ∷ 0 ∷ 1 ∷ [];
  seed_counter = 1;
  security_failures = 2;
}

abbrev wrong_key : Bytes
wrong_key = 0x02 ∷ 0 ∷ 0 ∷ 0 ∷ 0 ∷ []

abbrev right_key : Bytes
right_key = 0x27 ∷ 0x02 ∷ 0 ∷ 5 ∷ 0 ∷ 1 ∷ []

early : 1000 < 31000
early = omega arith

third_failure :
    (handle_uds env seeded (0x27 ∷ wrong_key)).events ≡ response (0x7F ∷ 0x27 ∷ 0x36 ∷ []) ∷ []
unfolding handle_uds dispatch security_access require_programming_session send_key reject_key
third_failure = refl

right_key-unlocks : (handle_uds env seeded right_key).state.security_unlocked ≡ true
unfolding handle_uds dispatch security_access require_programming_session send_key accept_key
right_key-unlocks = refl

reads : Reads from_be (0xCA ∷ 0xFE ∷ []) env
reads = record { hashes = λ b. refl; opens = refl }

run-IsValid_example : IsValid (run (new 5) requests).state
run-IsValid_example = run-IsValid (new 5) requests (new-IsValid 5)

new-InstallsMatch_example :
    InstallsMatch from_be (0xCA ∷ 0xFE ∷ []) none (run (new 5) requests).events
new-InstallsMatch_example =
    new-InstallsMatch from_be (0xCA ∷ 0xFE ∷ []) none 5 requests
      (All-map (λ r. Reads from_be (0xCA ∷ 0xFE ∷ []) r.0) request payloads (λ payload. reads))

handle_uds-Unlocks_example : (seeded.security_unlocked ≡ true) ⊎ SentKey env seeded right_key
handle_uds-Unlocks_example = handle_uds-Unlocks env seeded right_key right_key-unlocks

lockout_holds_example :
    ((run (handle_uds env seeded (0x27 ∷ wrong_key)).state requests).state.security_unlocked
      ≡ false)
    × ((run (handle_uds env seeded (0x27 ∷ wrong_key)).state requests).state.pending_seed ≡ [])
lockout_holds_example = lockout_holds env seeded wrong_key requests third_failure (
    All-map (λ r. r.0.security_clock < env.security_clock + 30000) request payloads
      (λ payload. early))

handle_uds-NoProgress_example : NoProgress seeded (handle_uds env seeded (0x36 ∷ 1 ∷ 0xCA ∷ []))
handle_uds-NoProgress_example = handle_uds-NoProgress env seeded (0x36 ∷ 1 ∷ 0xCA ∷ []) refl

-- An image was verified and activated, and a download of two bytes more is requested.
abbrev activated : Programmer
activated = record (new 5) {
  current_session = 2;
  session_started_at = 900;
  security_unlocked = true;
  erase_completed = true;
  install_pending = true;
  activation_marked = true;
}

abbrev second_download : Bytes
second_download = 0x00 ∷ 0x44 ∷ 0 ∷ 0 ∷ 0 ∷ 0 ∷ 0 ∷ 0 ∷ 0 ∷ 2 ∷ []

second_download-opens :
    (handle_uds env activated (0x34 ∷ second_download)).state.download_requested ≡ true
unfolding handle_uds dispatch request_download start_download require_programming_session
second_download-opens = refl

request_download-keeps_activation_example :
    (handle_uds env activated (0x34 ∷ second_download)).state.activation_marked
    ≡ activated.activation_marked
request_download-keeps_activation_example =
    request_download-keeps_activation env activated second_download second_download-opens

abbrev node : Node
node = record { programmer = seeded; reassembler = Receiver.new 0 0 }

-- A TransferData of 70 bytes takes two frames.
abbrev long_request : Bytes
long_request = 0x36 ∷ 0x01 ∷ replicate 68 0xAA

feed_frames-segment_example :
    (frames : List Bytes) × (segment long_request ≡ ok frames)
    × Requested env node frames long_request (flow_control_for node long_request)
feed_frames-segment_example =
    feed_frames-segment env node long_request (record { nothing_pending = refl; unpaced = refl })
      (omega arith) (omega arith)
