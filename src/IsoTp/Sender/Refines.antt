-- ===== src/IsoTp/Sender/Refines.antt =====
-- What `send` puts on the bus, against the frames of `segment`.
use virtual_automotive_ota_d.Prelude.{
  ℕ, zero, suc, ◌+◌, ◌/◌, ◌%◌, ◌≤◌, ◌<◌, ◌≡◌, inl, inr, refl, ap, List, [], ◌∷◌, ◌++◌, map, leb,
  ◌==◌, not, ◌&&◌, Bool-cases, length, take, drop, Bytes, Result, ok, err, Exception, arith,
  length-take, length-drop, dec_le, le→leb, leb_gt, All,
}
use virtual_automotive_ota_d.IsoTp.Frames.{
  CanMessage, FlowControl, single_frame, first_frame, consecutive_frame, wrap_frame,
}
use virtual_automotive_ota_d.IsoTp.Sender.{
  segment, consecutive_frames, Sent, fail, then_send, send_loop, send, after_wait,
  wait_for_flow_control, Received, next_wait, later_waits,
}

-- The CAN message that carries a frame.
abbrev pub carry : ℕ → Bytes → CanMessage
carry arbitration_id frame = record { arbitration_id = arbitration_id; content = frame }

-- `s` has sent the first of `ms`, and all of them if it ended without an exception.
pub record IsPrefix (s : Sent) (ms : List CanMessage) : Type 0 where
  pub unsent : List CanMessage
  pub sent : s.messages ++ unsent ≡ ms
  pub complete : s.result ≡ ok tt → unsent ≡ []

IsPrefix-fail : (e : Exception) (ms : List CanMessage) → IsPrefix (fail e) ms
IsPrefix-fail e ms = record { unsent = ms; sent = refl; complete = λ h. cc }

pub then_send_fits :
    (id : ℕ) (f : Bytes) (s : Sent)
    → length f ≤ 64
    → then_send id (ok f) s ≡ record { messages = carry id f ∷ s.messages; result = s.result }
unfolding then_send wrap_frame
then_send_fits id f s h = ground arith

IsPrefix-then_send :
    (id : ℕ) (f : Bytes) (s : Sent) (ms : List CanMessage)
    → length f ≤ 64
    → IsPrefix s ms
    → IsPrefix (then_send id (ok f) s) (carry id f ∷ ms)
IsPrefix-then_send id f s ms h p =
    rw (then_send_fits id f s h)
      (record { unsent = p.unsent; sent = ap (λ t. carry id f ∷ t) p.sent; complete = p.complete })

pub length-consecutive_frame : (s : ℕ) (xs : Bytes) → length (consecutive_frame s (take 63 xs)) ≤ 64
unfolding consecutive_frame
length-consecutive_frame s xs = omega (arith, length-take 63 xs)

IsPrefix-after_wait :
    (w : Result FlowControl) (rest : FlowControl → Sent) (ms : List CanMessage)
    → ((fc : FlowControl) → w ≡ ok fc → IsPrefix (rest fc) ms)
    → IsPrefix (after_wait w rest) ms
unfolding after_wait
IsPrefix-after_wait (ok fc) rest ms h = h fc refl
IsPrefix-after_wait (err e) rest ms h = IsPrefix-fail e ms

send_loop-IsPrefix :
    (fuel id : ℕ) (waits : List Received) (bs bc s : ℕ) (rem : Bytes)
    → length rem ≤ fuel
    → IsPrefix
        (send_loop fuel id waits bs bc s rem)
        (map (carry id) (consecutive_frames fuel s rem))
unfolding send_loop consecutive_frames
send_loop-IsPrefix fuel id waits bs bc s [] h = record {
  unsent = [];
  sent = refl;
  complete = λ e. refl;
}
send_loop-IsPrefix zero id waits bs bc s (x ∷ xs) h = absurd (omega arith)
send_loop-IsPrefix (suc fuel) id waits bs bc s (x ∷ xs) h =
    elim (Bool-cases (not (bs == 0) && leb bs bc)) [
      | inl full ↦ rw full (
          IsPrefix-after_wait (wait_for_flow_control id 0 (next_wait waits)) _ _ (λ fc e.
            IsPrefix-then_send id (consecutive_frame s (take 63 (x ∷ xs))) _ _
              (length-consecutive_frame s (x ∷ xs))
              (send_loop-IsPrefix fuel id (later_waits waits) fc.block_size 1 ((s + 1) % 16)
                (drop 63 (x ∷ xs)) shorter)))
      | inr free ↦ rw free (
          IsPrefix-then_send id (consecutive_frame s (take 63 (x ∷ xs))) _ _
            (length-consecutive_frame s (x ∷ xs))
            (send_loop-IsPrefix fuel id waits bs (bc + 1) ((s + 1) % 16) (drop 63 (x ∷ xs))
              shorter))
    ]
  where
    shorter : length (drop 63 (x ∷ xs)) ≤ fuel
    shorter = omega (arith, length-drop 63 (x ∷ xs))

pub single_frame-ok :
    (payload : Bytes)
    → length payload ≤ 62
    → (f : Bytes) × (single_frame payload ≡ ok f) × (length f ≤ 64)
unfolding single_frame
single_frame-ok payload h = elim (dec_le (length payload) 15) [
  | yes short ↦ (length payload ∷ payload, ground arith, omega arith)
  | no long ↦ (0 ∷ length payload ∷ payload, ground arith, omega arith)
]

pub first_frame-ok :
    (n : ℕ) (head : Bytes)
    → length head ≤ 62
    → n ≤ 0xFFF
    → (f : Bytes) × (first_frame n head ≡ ok f) × (length f ≤ 64)
unfolding first_frame
first_frame-ok n head h hn = ((16 + n / 256 % 16) ∷ n % 256 ∷ head, ground arith, omega arith)

-- The frames of a payload that one frame holds, and of a longer one.
pub segment_short :
    (payload f : Bytes)
    → length payload ≤ 62
    → single_frame payload ≡ ok f
    → segment payload ≡ ok (f ∷ [])
unfolding segment
segment_short payload f h e = rw (le→leb _ _ h, e)

pub segment_long :
    (payload f : Bytes)
    → 62 < length payload
    → first_frame (length payload) (take 62 payload) ≡ ok f
    → segment payload ≡ ok (f ∷ consecutive_frames (length payload) 1 (drop 62 payload))
unfolding segment
segment_long payload f h e = rw (leb_gt (length payload) 62 h, e)

pub send_short :
    (id : ℕ) (waits : List Received) (payload f : Bytes)
    → length payload ≤ 62
    → single_frame payload ≡ ok f
    → send id waits payload ≡ then_send id (ok f) (record { messages = []; result = ok tt })
unfolding send
send_short id waits payload f h e = rw (le→leb _ _ h, e)

pub send_long :
    (id : ℕ) (waits : List Received) (payload f : Bytes)
    → 62 < length payload
    → first_frame (length payload) (take 62 payload) ≡ ok f
    → send id waits payload
      ≡ then_send id (ok f) (
          after_wait (wait_for_flow_control id 0 (next_wait waits)) (λ fc.
            send_loop (length payload) id (later_waits waits) fc.block_size 0 1 (drop 62 payload)))
unfolding send
send_long id waits payload f h e = rw (leb_gt (length payload) 62 h, e)

pub length-drop_le : (n : ℕ) (xs : Bytes) → length (drop n xs) ≤ length xs
length-drop_le n xs = omega (arith, length-drop n xs)

-- For every payload of up to 4095 bytes and whatever the bus answers, the messages that `send` has
-- put on the bus when it ends are the first of those that carry the frames of `segment`, in order,
-- and if it ends without an exception they are all of them.
pub send-IsPrefix :
    (id : ℕ) (waits : List Received) (payload : Bytes)
    → length payload ≤ 0xFFF
    → (frames : List Bytes) × (segment payload ≡ ok frames)
      × IsPrefix (send id waits payload) (map (carry id) frames)
send-IsPrefix id waits payload h = elim (dec_le (length payload) 62) [
  | yes short ↦
      let (f, made, fits) = single_frame-ok payload short in
      (
        f ∷ [],
        segment_short payload f short made,
        rw (send_short id waits payload f short made) (
            IsPrefix-then_send id f _ [] fits
              (record { unsent = []; sent = refl; complete = λ e. refl })),
      )
  | no long ↦
      let more : 62 < length payload = omega arith in
      let (f, made, fits) =
        first_frame-ok (length payload) (take 62 payload) (omega (arith, length-take 62 payload))
          h in
      (
        f ∷ consecutive_frames (length payload) 1 (drop 62 payload),
        segment_long payload f more made,
        rw (send_long id waits payload f more made) (
            IsPrefix-then_send id f _ _ fits (
              IsPrefix-after_wait (wait_for_flow_control id 0 (next_wait waits)) _ _ (λ fc e.
                send_loop-IsPrefix (length payload) id (later_waits waits) fc.block_size 0 1
                  (drop 62 payload) (length-drop_le 62 payload)))),
      )
]

-- The receiver of `w` clears the sender to go on before the deadline.
pub record IsGranted (id : ℕ) (w : Received) : Type 0 where
  pub granted : FlowControl
  pub in_time : wait_for_flow_control id 0 w ≡ ok granted

after_wait-granted :
    (id : ℕ) (w : Received) (rest : FlowControl → Sent)
    → IsGranted id w
    → ((fc : FlowControl) → (rest fc).result ≡ ok tt)
    → (after_wait (wait_for_flow_control id 0 w) rest).result ≡ ok tt
unfolding after_wait
after_wait-granted id w rest g h = rw (g.in_time) (h g.granted)

then_send-result :
    (id : ℕ) (f : Bytes) (s : Sent)
    → length f ≤ 64
    → s.result ≡ ok tt
    → (then_send id (ok f) s).result ≡ ok tt
then_send-result id f s h e = rw (then_send_fits id f s h) e

send_loop-result :
    (fuel id : ℕ) (waits : List Received) (bs bc s : ℕ) (rem : Bytes)
    → All (IsGranted id) waits
    → length rem ≤ length waits
    → length rem ≤ fuel
    → (send_loop fuel id waits bs bc s rem).result ≡ ok tt
unfolding send_loop
send_loop-result fuel id waits bs bc s [] g hw h = refl
send_loop-result fuel id [] bs bc s (x ∷ xs) g hw h = absurd (omega arith)
send_loop-result zero id (w ∷ ws) bs bc s (x ∷ xs) g hw h = absurd (omega arith)
send_loop-result (suc fuel) id (w ∷ ws) bs bc s (x ∷ xs) (g, gs) hw h =
    elim (Bool-cases (not (bs == 0) && leb bs bc)) [
      | inl full ↦ rw full (
          after_wait-granted id w _ g (λ fc.
            then_send-result id _ _ (length-consecutive_frame s (x ∷ xs)) (
              send_loop-result fuel id ws fc.block_size 1 ((s + 1) % 16) (drop 63 (x ∷ xs)) gs
                (omega (arith, length-drop 63 (x ∷ xs))) (omega (arith, length-drop 63 (x ∷ xs))))))
      | inr free ↦ rw free (
          then_send-result id _ _ (length-consecutive_frame s (x ∷ xs)) (
            send_loop-result fuel id (w ∷ ws) bs (bc + 1) ((s + 1) % 16) (drop 63 (x ∷ xs)) (g, gs)
              (omega (arith, length-drop 63 (x ∷ xs))) (omega (arith, length-drop 63 (x ∷ xs)))))
    ]

-- If every wait is answered by a clear-to-send in time, there are as many waits as bytes or more, and
-- the payload has up to 4095 bytes, `send` ends without an exception.
pub send-completes :
    (id : ℕ) (waits : List Received) (payload : Bytes)
    → length payload ≤ 0xFFF
    → All (IsGranted id) waits
    → length payload ≤ length waits
    → (send id waits payload).result ≡ ok tt
send-completes id waits payload h g hw = elim (dec_le (length payload) 62) [
  | yes short ↦
      let (f, made, fits) = single_frame-ok payload short in
      rw (send_short id waits payload f short made) (then_send-result id f _ fits refl)
  | no long ↦ completes waits g hw (omega arith)
]
  where
    completes :
        (ws : List Received)
        → All (IsGranted id) ws
        → length payload ≤ length ws
        → 62 < length payload
        → (send id ws payload).result ≡ ok tt
    completes [] gs hs more = absurd (omega arith)
    completes (w ∷ ws) (gw, gs) hs more =
        let (f, made, fits) =
          first_frame-ok (length payload) (take 62 payload) (omega (arith, length-take 62 payload))
            h in
        rw (send_long id (w ∷ ws) payload f more made) (
          then_send-result id f _ fits (
            after_wait-granted id w _ gw (λ fc.
              send_loop-result (length payload) id ws fc.block_size 0 1 (drop 62 payload) gs
                (omega (arith, length-drop 62 payload)) (length-drop_le 62 payload))))
