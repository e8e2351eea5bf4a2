-- ===== src/IsoTp/Receiver/Invariant.antt =====
-- The state of the reassembler between frames.
use virtual_automotive_ota_d.Prelude.{
  ℕ, ◌≤◌, ◌<◌, ◌≡◌, ◌≢◌, some, [], ◌∷◌, length, Bytes, All, IsByte, arith,
}
use virtual_automotive_ota_d.IsoTp.Receiver.{
  Reassembler, feed, receive_single_frame, receive_first_frame, receive_consecutive_frame,
}

-- While a message is begun: it has a length of 1 to 4095 that the buffer has not reached, and with
-- a block size the counter of frames before the next flow control is positive.
pub record InProgress (r : Reassembler) (n : ℕ) : Type 0 where
  pub wanted : 0 < n
  pub small : n ≤ 0xFFF
  pub incomplete : length r.buffer < n
  pub credit : r.block_size ≢ 0 → 0 < r.frames_until_next_flow_control

pub record IsValid (r : Reassembler) : Type 0 where
  pub progress : (n : ℕ) → r.expected_length ≡ some n → InProgress r n

module _ (r : Reassembler) where
  first_frame-InProgress :
      (frame : Bytes) (n : ℕ)
      → All IsByte frame
      → (r.expected_length ≡ some n → InProgress r n)
      → (receive_first_frame r frame).1.expected_length ≡ some n
      → InProgress (receive_first_frame r frame).1 n
  unfolding receive_first_frame
  first_frame-InProgress [] n hb v e = v e
  first_frame-InProgress (a ∷ []) n hb v e = v e
  first_frame-InProgress (a ∷ b ∷ rest) n hb v e = ground arith

  single_frame-InProgress :
      (frame : Bytes) (n : ℕ)
      → (r.expected_length ≡ some n → InProgress r n)
      → (receive_single_frame r frame).1.expected_length ≡ some n
      → InProgress (receive_single_frame r frame).1 n
  unfolding receive_single_frame
  single_frame-InProgress frame n v e = ground arith

  consecutive_frame-InProgress :
      (frame : Bytes) (n : ℕ)
      → (r.expected_length ≡ some n → InProgress r n)
      → (receive_consecutive_frame r frame).1.expected_length ≡ some n
      → InProgress (receive_consecutive_frame r frame).1 n
  unfolding receive_consecutive_frame
  consecutive_frame-InProgress frame n v e = ground arith

-- The three handlers stay shut here: `feed` only chooses one of them.
feed-InProgress :
    (r : Reassembler) (frame : Bytes) (n : ℕ)
    → All IsByte frame
    → (r.expected_length ≡ some n → InProgress r n)
    → (feed r frame).1.expected_length ≡ some n
    → InProgress (feed r frame).1 n
feed-InProgress r [] n hb v e = unfold feed in v (unfold feed in e)
feed-InProgress r (b ∷ bs) n hb v e =
    unfold feed in
    ground (
      arith,
      first_frame-InProgress r (b ∷ bs) n hb v,
      single_frame-InProgress r (b ∷ bs) n v,
      consecutive_frame-InProgress r (b ∷ bs) n v,
    )

-- Every frame of bytes keeps the invariant: a message that is begun has a length of 1 to 4095 that
-- its buffer has not reached, and, if there is a block size, the counter of frames before the next
-- flow control is positive, so that taking one away does not go below zero.
pub feed-IsValid :
    (r : Reassembler) (frame : Bytes) → All IsByte frame → IsValid r → IsValid (feed r frame).1
feed-IsValid r frame hb v = record {
  progress = λ n e. feed-InProgress r frame n hb (v.progress n) e;
}
