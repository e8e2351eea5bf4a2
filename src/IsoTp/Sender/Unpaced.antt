-- ===== src/IsoTp/Sender/Unpaced.antt =====
-- `send` to a receiver that asks for no pauses: after one flow control all frames of `segment` are sent.
use virtual_automotive_ota_d.Prelude.{
  ℕ, zero, suc, ◌+◌, ◌%◌, ◌≤◌, ◌<◌, ◌≡◌, refl, ap, ◌∙◌, List, [], ◌∷◌, map, take, drop, length,
  Bytes, ok, arith, length-drop,
}
use virtual_automotive_ota_d.IsoTp.Frames.{FlowControl, first_frame, consecutive_frame}
use virtual_automotive_ota_d.IsoTp.Sender.{
  segment, consecutive_frames, Sent, then_send, send_loop, send, after_wait, wait_for_flow_control,
  Received,
}
use virtual_automotive_ota_d.IsoTp.Sender.Refines.{
  carry, then_send_fits, single_frame-ok, send_short, send_long, segment_short,
  length-consecutive_frame, length-drop_le,
}

abbrev pub all_sent : ℕ → List Bytes → Sent
all_sent id frames = record { messages = map (carry id) frames; result = ok tt }

send_loop-unpaced :
    (fuel id : ℕ) (waits : List Received) (bc s : ℕ) (rem : Bytes)
    → length rem ≤ fuel
    → send_loop fuel id waits 0 bc s rem ≡ all_sent id (consecutive_frames fuel s rem)
unfolding send_loop consecutive_frames
send_loop-unpaced fuel id waits bc s [] h = refl
send_loop-unpaced zero id waits bc s (x ∷ xs) h = absurd (omega arith)
send_loop-unpaced (suc fuel) id waits bc s (x ∷ xs) h =
    ap (then_send id (ok (consecutive_frame s (take 63 (x ∷ xs))))) (
      send_loop-unpaced fuel id waits (bc + 1) ((s + 1) % 16) (drop 63 (x ∷ xs))
        (omega (arith, length-drop 63 (x ∷ xs))))
    ∙ then_send_fits id (consecutive_frame s (take 63 (x ∷ xs))) _
        (length-consecutive_frame s (x ∷ xs))

-- Until a flow control comes, a longer payload has only its first frame on the bus.
pub send_long-first :
    (id : ℕ) (payload f : Bytes)
    → 62 < length payload
    → length f ≤ 64
    → first_frame (length payload) (take 62 payload) ≡ ok f
    → (send id [] payload).messages ≡ carry id f ∷ []
unfolding wait_for_flow_control after_wait
send_long-first id payload f h fits made =
    ap (λ s. s.messages) (send_long id [] payload f h made ∙ then_send_fits id f _ fits)

pub send_short-all :
    (id : ℕ) (waits : List Received) (payload : Bytes)
    → length payload ≤ 62
    → (f : Bytes) × (segment payload ≡ ok (f ∷ [])) × (send id waits payload ≡ all_sent id (f ∷ []))
send_short-all id waits payload h =
    let (f, made, fits) = single_frame-ok payload h in
    (
      f,
      segment_short payload f h made,
      send_short id waits payload f h made ∙ then_send_fits id f _ fits,
    )

pub send_long-all :
    (id : ℕ) (w : Received) (payload f : Bytes) (fc : FlowControl)
    → 62 < length payload
    → length f ≤ 64
    → first_frame (length payload) (take 62 payload) ≡ ok f
    → wait_for_flow_control id 0 w ≡ ok fc
    → fc.block_size ≡ 0
    → send id (w ∷ []) payload
      ≡ all_sent id (f ∷ consecutive_frames (length payload) 1 (drop 62 payload))
unfolding after_wait
send_long-all id w payload f fc h fits made granted unpaced =
    let rem = drop 62 payload in
    send_long id (w ∷ []) payload f h made
    ∙ then_send_fits id f _ fits
    ∙ ap (λ s. record { messages = carry id f ∷ s.messages; result = s.result })
        (ap (λ r. after_wait r (λ fc. send_loop (length payload) id [] fc.block_size 0 1 rem))
            granted
          ∙ ap (λ b. send_loop (length payload) id [] b 0 1 rem) unpaced
          ∙ send_loop-unpaced (length payload) id [] 0 1 rem (length-drop_le 62 payload))
