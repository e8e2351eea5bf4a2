-- ===== src/IsoTp/Receiver/RoundTrip.antt =====
-- The reassembler gives back the payload that `segment` cut into frames.
use virtual_automotive_ota_d.Prelude.{
  ℕ, zero, suc, ◌+◌, ◌-◌, ◌/◌, ◌%◌, ◌≤◌, ◌<◌, ◌≡◌, refl, ◌∙◌, none, some, List, [], ◌∷◌, ◌++◌,
  length, take, drop, Bytes, ok, arith, length-append, length-take, length-drop, take-append-drop,
  take_all, drop_all, append_assoc, dec_le, le→leb, leb_gt,
}
use virtual_automotive_ota_d.IsoTp.Frames.{single_frame, first_frame, consecutive_frame}
use virtual_automotive_ota_d.IsoTp.Sender.{segment, consecutive_frames}
use virtual_automotive_ota_d.IsoTp.Receiver.{
  Reassembler, feed, receive_single_frame, receive_first_frame, receive_consecutive_frame, feed_all,
}

-- In the middle of a message of `n` bytes: `b` has come, and the frame numbered `s` is next.
pub record Waiting (r : Reassembler) (n : ℕ) (b : Bytes) (s : ℕ) : Type 0 where
  pub expected : r.expected_length ≡ some n
  pub buffered : r.buffer ≡ b
  pub sequence : r.next_sequence ≡ s

pub feed-consecutive_more :
    (r : Reassembler) (n : ℕ) (b : Bytes) (s : ℕ) (chunk : Bytes)
    → Waiting r n b s
    → s < 16
    → 0 < length chunk
    → length (b ++ chunk) < n
    → ((feed r (consecutive_frame s chunk)).0 ≡ none)
      × Waiting (feed r (consecutive_frame s chunk)).1 n (b ++ chunk) ((s + 1) % 16)
unfolding feed receive_consecutive_frame consecutive_frame
feed-consecutive_more r n b s chunk w hs hc h = ground arith

pub feed-consecutive_last :
    (r : Reassembler) (n : ℕ) (b : Bytes) (s : ℕ) (chunk : Bytes)
    → Waiting r n b s
    → s < 16
    → 0 < length chunk
    → length (b ++ chunk) ≡ n
    → ((feed r (consecutive_frame s chunk)).0 ≡ some (b ++ chunk))
      × ((feed r (consecutive_frame s chunk)).1.expected_length ≡ none)
unfolding feed receive_consecutive_frame consecutive_frame
feed-consecutive_last r n b s chunk w hs hc h = ground (arith, take_all n (b ++ chunk))

-- A delivered message empties the reassembler: nothing of it is kept for the next one.
abbrev Delivers : Reassembler → List Bytes → Bytes → Type 0
Delivers r frames payload =
    ((feed_all r frames).0 ≡ payload ∷ []) × ((feed_all r frames).1.expected_length ≡ none)

feed_all-more :
    (r : Reassembler) (f : Bytes) (fs : List Bytes) (p : Bytes)
    → (feed r f).0 ≡ none
    → Delivers (feed r f).1 fs p
    → Delivers r (f ∷ fs) p
unfolding feed_all
feed_all-more r f fs p e (d, x) = (rw e d, x)

feed_all-last :
    (r : Reassembler) (f : Bytes) (p : Bytes)
    → (feed r f).0 ≡ some p
    → (feed r f).1.expected_length ≡ none
    → Delivers r (f ∷ []) p
unfolding feed_all
feed_all-last r f p e x = (rw e, x)

-- One round of the loop over a remaining payload: `rem` is not empty.
module _ (fuel : ℕ) (s : ℕ) (x : ℕ) (xs : Bytes) where
  abbrev rem : Bytes
  rem = x ∷ xs

  pub consecutive_frames-step :
      consecutive_frames (suc fuel) s rem
      ≡ consecutive_frame s (take 63 rem) ∷ consecutive_frames fuel ((s + 1) % 16) (drop 63 rem)
  unfolding consecutive_frames
  consecutive_frames-step = refl

  pub consecutive_frames-last :
      length rem ≤ 63 → consecutive_frames (suc fuel) s rem ≡ consecutive_frame s rem ∷ []
  unfolding consecutive_frames
  consecutive_frames-last h = rw (take_all 63 rem h, drop_all 63 rem h)

feed_all-consecutive_frames :
    (fuel : ℕ) (r : Reassembler) (n : ℕ) (b : Bytes) (s : ℕ) (rem : Bytes)
    → Waiting r n b s
    → s < 16
    → 0 < length rem
    → length b + length rem ≡ n
    → length rem ≤ fuel
    → Delivers r (consecutive_frames fuel s rem) (b ++ rem)
feed_all-consecutive_frames fuel r n b s [] w hs h0 e hf = absurd (omega arith)
feed_all-consecutive_frames zero r n b s (x ∷ xs) w hs h0 e hf = absurd (omega arith)
feed_all-consecutive_frames (suc fuel) r n b s (x ∷ xs) w hs h0 e hf =
    elim (dec_le (length (x ∷ xs)) 63) [
      | yes fits ↦
          let fin = feed-consecutive_last r n b s (x ∷ xs) w hs h0 (length-append b (x ∷ xs) ∙ e) in
          rw (consecutive_frames-last fuel s x xs fits) (feed_all-last r _ _ fin.0 fin.1)
      | no long ↦
          let chunk = take 63 (x ∷ xs) in
          let tail = drop 63 (x ∷ xs) in
          let cut : b ++ (x ∷ xs) ≡ (b ++ chunk) ++ tail =
            rw (append_assoc b chunk tail, take-append-drop 63 (x ∷ xs)) in
          let lc : length chunk ≡ 63 = omega (arith, length-take 63 (x ∷ xs)) in
          let lt : length tail ≡ length (x ∷ xs) - 63 = length-drop 63 (x ∷ xs) in
          let big : 63 < length (x ∷ xs) = omega arith in
          let mid =
            feed-consecutive_more r n b s chunk w hs (omega arith)
              (omega (arith, length-append b chunk)) in
          rw (consecutive_frames-step fuel s x xs, cut)
            (feed_all-more r _ _ _ mid.0 (
              feed_all-consecutive_frames fuel _ n (b ++ chunk) ((s + 1) % 16) tail mid.1
                (omega arith) (omega arith) (omega (arith, length-append b chunk)) (omega arith)))
    ]

pub feed-single_frame :
    (r : Reassembler) (payload : Bytes)
    → 0 < length payload
    → length payload ≤ 62
    → (f : Bytes) × (single_frame payload ≡ ok f)
      × ((feed r f).0 ≡ some payload)
      × ((feed r f).1.expected_length ≡ none)
unfolding feed receive_single_frame single_frame
feed-single_frame r payload h0 h = elim (dec_le (length payload) 15) [
  | yes short ↦ (
    (length payload) ∷ payload,
    ground arith,
    ground (arith, take_all (length payload) payload),
    ground arith,
  )
  | no long ↦ (
    0 ∷ length payload ∷ payload,
    ground arith,
    ground (arith, take_all (length payload) payload),
    ground arith,
  )
]

pub feed-first_frame :
    (r : Reassembler) (n : ℕ) (head : Bytes)
    → length head < n
    → n ≤ 0xFFF
    → (f : Bytes) × (first_frame n head ≡ ok f)
      × ((feed r f).0 ≡ none)
      × Waiting (feed r f).1 n head 1
unfolding feed receive_first_frame first_frame
feed-first_frame r n head h hn =
    ((16 + n / 256 % 16) ∷ n % 256 ∷ head, ground arith, ground arith, ground arith)

-- For every payload of 1 to 4095 bytes, `segment` yields frames, and from any state of the
-- reassembler these frames deliver that payload, once, and leave no message begun.
pub feed_all-segment :
    (r : Reassembler) (payload : Bytes)
    → 0 < length payload
    → length payload ≤ 0xFFF
    → (frames : List Bytes) × (segment payload ≡ ok frames)
      × ((feed_all r frames).0 ≡ payload ∷ [])
      × ((feed_all r frames).1.expected_length ≡ none)
unfolding segment
feed_all-segment r payload h0 h = elim (dec_le (length payload) 62) [
  | yes short ↦
      let (f, made, got, idle) = feed-single_frame r payload h0 short in
      let d = feed_all-last r f payload got idle in (f ∷ [], rw (le→leb _ _ short, made), d.0, d.1)
  | no long ↦
      let lh : length (take 62 payload) ≡ 62 = omega (arith, length-take 62 payload) in
      let lt : length (drop 62 payload) ≡ length payload - 62 = length-drop 62 payload in
      let (f, made, got, w) =
        feed-first_frame r (length payload) (take 62 payload) (omega arith) h in
      let d = feed_all-more r f _ _ got (
        feed_all-consecutive_frames (length payload) _ (length payload) (take 62 payload) 1
          (drop 62 payload) w (omega arith) (omega arith) (omega arith) (omega arith)) in
      (
        f ∷ consecutive_frames (length payload) 1 (drop 62 payload),
        rw (leb_gt (length payload) 62 (omega arith), made),
        rw (take-append-drop 62 payload) at d.0,
        d.1,
      )
]
