-- ===== src/IsoTp/Examples.antt =====
-- IsoTpAdapter and IsoTpReassembler on concrete frames.
use virtual_automotive_ota_d.Prelude.{
  ℕ, zero, suc, ◌≡◌, refl, none, some, List, [], ◌∷◌, replicate, All, Bytes, ok, map, arith,
}
use virtual_automotive_ota_d.IsoTp.Frames.{parse_flow_control, single_frame}
use virtual_automotive_ota_d.IsoTp.Sender.{
  Received, segment, send, wait_for_flow_control, on_message, on_flow_control,
}
use virtual_automotive_ota_d.IsoTp.Sender.Refines.{
  IsPrefix, IsGranted, carry, send-IsPrefix, send-completes,
}
use virtual_automotive_ota_d.IsoTp.Receiver.{new, feed, feed_all}
use virtual_automotive_ota_d.IsoTp.Receiver.Invariant.{IsValid, feed-IsValid}
use virtual_automotive_ota_d.IsoTp.Receiver.RoundTrip.{feed_all-segment}

-- A payload of two frames.
abbrev seventy : Bytes
seventy = replicate 70 0xAB

-- The receiver clears the sender to go on, with a block size of 2.
abbrev grant : Received
grant = none ∷ some (record { arbitration_id = 7; content = 0x30 ∷ 2 ∷ 10 ∷ [] }) ∷ []

grants : (n : ℕ) → All (IsGranted 7) (replicate n grant)
unfolding wait_for_flow_control on_message on_flow_control parse_flow_control
grants zero = tt
grants (suc n) = (
  record { granted = record { flow_status = 0; block_size = 2; stmin = 100 }; in_time = refl },
  grants n,
)

new-IsValid : IsValid (new 0 0)
new-IsValid = record { progress = λ n e. cc }

segment-short : segment (1 ∷ 2 ∷ 3 ∷ []) ≡ ok ((3 ∷ 1 ∷ 2 ∷ 3 ∷ []) ∷ [])
unfolding segment single_frame
segment-short = refl

feed_all-segment_example :
    (frames : List Bytes) × (segment seventy ≡ ok frames)
    × ((feed_all (new 0 0) frames).0 ≡ seventy ∷ [])
    × ((feed_all (new 0 0) frames).1.expected_length ≡ none)
feed_all-segment_example = feed_all-segment (new 0 0) seventy (omega arith) (omega arith)

feed-IsValid_example : IsValid (feed (new 0 0) (0x10 ∷ 0x46 ∷ 1 ∷ 2 ∷ [])).1
feed-IsValid_example =
    feed-IsValid (new 0 0) (0x10 ∷ 0x46 ∷ 1 ∷ 2 ∷ [])
      (omega arith, (omega arith, (omega arith, (omega arith, tt)))) new-IsValid

send-IsPrefix_example :
    (frames : List Bytes) × (segment seventy ≡ ok frames)
    × IsPrefix (send 7 (grant ∷ []) seventy) (map (carry 7) frames)
send-IsPrefix_example = send-IsPrefix 7 (grant ∷ []) seventy (omega arith)

send-completes_example : (send 7 (replicate 70 grant) seventy).result ≡ ok tt
send-completes_example =
    send-completes 7 (replicate 70 grant) seventy (omega arith) (grants 70) (omega arith)
