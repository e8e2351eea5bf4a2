-- ===== src/Programmer/Feed/Requests.antt =====
-- A request that IsoTpAdapter cut into frames, at the server.
use virtual_automotive_ota_d.Prelude.{
  ℕ, zero, suc, ◌+◌, ◌-◌, ◌/◌, ◌%◌, ◌≤◌, ◌<◌, ◌≡◌, refl, sym, ap, ◌∙◌, true, none, some, List, [],
  ◌∷◌, ◌++◌, length, take, drop, append_assoc, length-append, length-take, length-drop,
  take-append-drop, take_all, Bytes, ok, arith, dec_le, le→leb, leb_gt, leb, if◌then◌else◌,
}
use virtual_automotive_ota_d.IsoTp.Frames.{CanMessage, first_frame, single_frame, consecutive_frame}
use virtual_automotive_ota_d.IsoTp.Sender.{segment, consecutive_frames}
use virtual_automotive_ota_d.IsoTp.Receiver.{
  Reassembler, flow_control_of, reset, receive_single_frame, receive_first_frame,
  receive_consecutive_frame,
}
use virtual_automotive_ota_d.IsoTp.Receiver
use virtual_automotive_ota_d.IsoTp.Receiver.RoundTrip.{
  Waiting, feed-consecutive_more, feed-consecutive_last, consecutive_frames-step,
  consecutive_frames-last,
}
use virtual_automotive_ota_d.Programmer.State.{Env}
use virtual_automotive_ota_d.Programmer.Feed.{
  Node, is_isotp_candidate, feed_frames, then_feed, handle_payload,
}
use virtual_automotive_ota_d.Programmer.Feed.Taken.{
  IsIdle, taken, feed-silent, feed-answered, Requested, Requested-last, Requested-more,
  feed_frames-step,
}

module _ (r : Reassembler) (idle : IsIdle r) where
  feed_consecutive-IsIdle :
      (s : ℕ) (chunk : Bytes) → s < 16 → IsIdle (Receiver.feed r (consecutive_frame s chunk)).1
  unfolding Receiver.feed receive_consecutive_frame consecutive_frame reset
  feed_consecutive-IsIdle s chunk h = ground arith

  -- A frame of a request of one frame
  record Single (payload f : Bytes) : Type 0 where
    made : single_frame payload ≡ ok f
    candidate : is_isotp_candidate f ≡ true
    got : (Receiver.feed r f).0 ≡ some payload
    idle_after : IsIdle (Receiver.feed r f).1

  feed-Single :
      (payload : Bytes) → 0 < length payload → length payload ≤ 62 → (f : Bytes) × Single payload f
  unfolding Receiver.feed receive_single_frame single_frame reset is_isotp_candidate
  feed-Single payload h0 h = elim (dec_le (length payload) 15) [
    | yes short ↦ (length payload ∷ payload, ground (arith, take_all (length payload) payload))
    | no long ↦ (0 ∷ length payload ∷ payload, ground (arith, take_all (length payload) payload))
  ]

  record First (n : ℕ) (head f : Bytes) : Type 0 where
    made : first_frame n head ≡ ok f
    candidate : is_isotp_candidate f ≡ true
    got : (Receiver.feed r f).0 ≡ none
    answered : (Receiver.feed r f).1.pending_flow_control ≡ some (flow_control_of r)
    unpaced : (Receiver.feed r f).1.block_size ≡ 0
    waiting : Waiting (Receiver.feed r f).1 n head 1

  feed-First : (n : ℕ) (head : Bytes) → length head < n → n ≤ 0xFFF → (f : Bytes) × First n head f
  unfolding Receiver.feed receive_first_frame first_frame is_isotp_candidate
  feed-First n head h hn = ((16 + n / 256 % 16) ∷ n % 256 ∷ head, ground arith)

consecutive-candidate :
    (s : ℕ) (chunk : Bytes) → s < 16 → is_isotp_candidate (consecutive_frame s chunk) ≡ true
unfolding is_isotp_candidate consecutive_frame
consecutive-candidate s chunk h = ground arith

Requested-consecutive :
    (env : Env) (fuel : ℕ) (node : Node) (n : ℕ) (b : Bytes) (s : ℕ) (rem : Bytes)
    → IsIdle node.reassembler
    → Waiting node.reassembler n b s
    → s < 16
    → 0 < length rem
    → length b + length rem ≡ n
    → length rem ≤ fuel
    → Requested env node (consecutive_frames fuel s rem) (b ++ rem) []
Requested-consecutive env fuel node n b s [] i w hs h0 e hf = absurd (omega arith)
Requested-consecutive env zero node n b s (x ∷ xs) i w hs h0 e hf = absurd (omega arith)
Requested-consecutive env (suc fuel) node n b s (x ∷ xs) i w hs h0 e hf =
    elim (dec_le (length (x ∷ xs)) 63) [
      | yes fits ↦
          let fin =
            feed-consecutive_last node.reassembler n b s (x ∷ xs) w hs h0
              (length-append b (x ∷ xs) ∙ e) in
          rw (consecutive_frames-last fuel s x xs fits) (
            Requested-last env node (consecutive_frame s (x ∷ xs)) (b ++ (x ∷ xs))
              (consecutive-candidate s (x ∷ xs) hs) fin.0
              (feed_consecutive-IsIdle node.reassembler i s (x ∷ xs) hs))
      | no long ↦
          let chunk = take 63 (x ∷ xs) in
          let tail = drop 63 (x ∷ xs) in
          let cut : b ++ (x ∷ xs) ≡ (b ++ chunk) ++ tail =
            rw (append_assoc b chunk tail, take-append-drop 63 (x ∷ xs)) in
          let lc : length chunk ≡ 63 = omega (arith, length-take 63 (x ∷ xs)) in
          let lt : length tail ≡ length (x ∷ xs) - 63 = length-drop 63 (x ∷ xs) in
          let big : 63 < length (x ∷ xs) = omega arith in
          let (got, next) =
            feed-consecutive_more node.reassembler n b s chunk w hs (omega arith)
              (omega (arith, length-append b chunk)) in
          let i' = feed_consecutive-IsIdle node.reassembler i s chunk hs in
          let frame = consecutive_frame s chunk in
          let step =
            feed-silent env node frame none (consecutive-candidate s chunk hs) got
              i'.nothing_pending in
          rw (consecutive_frames-step fuel s x xs, cut)
            (Requested-more env node frame (consecutive_frames fuel ((s + 1) % 16) tail)
              ((b ++ chunk) ++ tail) [] [] step
              (Requested-consecutive env fuel (taken env node frame none []).node n (b ++ chunk)
                ((s + 1) % 16) tail (record { nothing_pending = refl; unpaced = i'.unpaced })
                (record {
                  expected = next.expected;
                  buffered = next.buffered;
                  sequence = next.sequence;
                })
                (omega arith) (omega arith) (omega (arith, length-append b chunk)) (omega arith)))
    ]

-- The flow control for a request, if it takes more than one frame
abbrev pub flow_control_for : Node → Bytes → List CanMessage
flow_control_for n payload =
    if leb (length payload) 62
    then []
    else (record { arbitration_id = n.programmer.ecu_id; content = flow_control_of n.reassembler }
        ∷ [])

-- A request of 1 to 4095 bytes is cut into frames by `segment`. A server whose reassembler asks for no
-- pauses, and has no flow control waiting, takes every frame. It puts on the bus one flow control, if the
-- request takes more than one frame, and it does what `_handle_uds` does on the request, once; its
-- reassembler then is as required for the next request.
pub feed_frames-segment :
    (env : Env) (n : Node) (payload : Bytes)
    → IsIdle n.reassembler
    → 0 < length payload
    → length payload ≤ 0xFFF
    → (frames : List Bytes) × (segment payload ≡ ok frames)
      × Requested env n frames payload (flow_control_for n payload)
unfolding segment
feed_frames-segment env n payload i h0 h = elim (dec_le (length payload) 62) [
  | yes short ↦
      let (f, one) = feed-Single n.reassembler i payload h0 short in
      let few : leb (length payload) 62 ≡ true = le→leb _ _ short in
      (
        f ∷ [],
        rw (few, one.made),
        rw few (Requested-last env n f payload one.candidate one.got one.idle_after),
      )
  | no long ↦
      let many = leb_gt (length payload) 62 (omega arith) in
      let head = take 62 payload in
      let tail = drop 62 payload in
      let lh : length head ≡ 62 = omega (arith, length-take 62 payload) in
      let lt : length tail ≡ length payload - 62 = length-drop 62 payload in
      let (f, first) = feed-First n.reassembler i (length payload) head (omega arith) h in
      let fc : CanMessage = record {
        arbitration_id = n.programmer.ecu_id;
        content = flow_control_of n.reassembler;
      } in
      let w = first.waiting in
      let step = feed-answered env n f first.candidate first.got first.answered in
      let rest =
        Requested-consecutive env (length payload) (taken env n f none (fc ∷ [])).node
          (length payload) head 1 tail (record { nothing_pending = refl; unpaced = first.unpaced })
          (record { expected = w.expected; buffered = w.buffered; sequence = w.sequence })
          (omega arith) (omega arith) (omega arith) (omega arith) in
      let whole =
        Requested-more env n f (consecutive_frames (length payload) 1 tail) (head ++ tail) (fc ∷ [])
          [] step rest in
      (
        f ∷ consecutive_frames (length payload) 1 tail,
        rw (many, first.made),
        rw many (rw (take-append-drop 62 payload) at whole),
      )
]

-- What the first frame of a longer request is answered by, before the others come.
pub flow_control_first :
    (env : Env) (n : Node) (payload f : Bytes)
    → IsIdle n.reassembler
    → 62 < length payload
    → length payload ≤ 0xFFF
    → first_frame (length payload) (take 62 payload) ≡ ok f
    → (feed_frames env n (f ∷ [])).flow_control
      ≡ record { arbitration_id = n.programmer.ecu_id; content = flow_control_of n.reassembler }
        ∷ []
unfolding then_feed handle_payload feed_frames
flow_control_first env n payload f i long h made =
    let shorter : length (take 62 payload) < length payload =
      omega (arith, length-take 62 payload) in
    let (g, first) = feed-First n.reassembler i (length payload) (take 62 payload) shorter h in
    let same : g ≡ f = ok-same g f (sym first.made ∙ made) in
    let step = feed-answered env n g first.candidate first.got first.answered in
    ap (λ f. (feed_frames env n (f ∷ [])).flow_control) (sym same)
    ∙ ap (λ a. a.flow_control) (feed_frames-step env n g [] _ step)
  where
    ok-same : (x y : Bytes) → (ok x ≡ ok y) → x ≡ y
    ok-same x y e = cc
