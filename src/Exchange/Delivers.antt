-- ===== src/Exchange/Delivers.antt =====
-- The loop over the bus as a function of the payloads that the reassembler delivers, and the exchange with
-- an ECU that sends its responses by IsoTpAdapter.send (transport/can/isotp_adapter.py).
use virtual_automotive_ota_d.Prelude.{
  ℕ, ◌≤◌, ◌<◌, ◌≡◌, refl, sym, ap, ◌∙◌, inl, inr, true, false, not, Option, none, some, List, [],
  Bool, map, ==_self, ◌&&◌, ltb, shr, ◌∷◌, ◌++◌, append_assoc, arith, length, All, ◌==◌,
  if◌then◌else◌, Bool-cases, Option-cases, ok, Bytes,
}
use virtual_automotive_ota_d.IsoTp.Frames.{CanMessage}
use virtual_automotive_ota_d.IsoTp.Sender.{Received, send}
use virtual_automotive_ota_d.IsoTp.Receiver.{Reassembler, feed, feed_all, deliver}
use virtual_automotive_ota_d.IsoTp.Receiver.RoundTrip.{feed-single_frame}
use virtual_automotive_ota_d.IsoTp.Sender.Refines.{single_frame-ok, send_short, then_send_fits}
use virtual_automotive_ota_d.Uds.Codec.{is_response_pending}
use virtual_automotive_ota_d.Exchange.{
  is_response_for_request, go_on, on_assembled, on_message, collect, ends_pending,
}
use virtual_automotive_ota_d.Exchange.Collects.{after_turn, collect-cons}

-- The type of a frame that the reassembler reads: single, first or consecutive. Heartbeats (0x40) and
-- flow control (0x3.) have others.
abbrev pub is_data_frame : Bytes → Bool
is_data_frame [] = false
is_data_frame (b ∷ bs) = ltb (shr b 4) 3

-- The data frames among the messages with the ECU's identifier
abbrev pub frames_from : ℕ → Received → List Bytes
frames_from can_id [] = []
frames_from can_id (none ∷ ms) = frames_from can_id ms
frames_from can_id (some m ∷ ms) =
    if m.arbitration_id == can_id && is_data_frame m.content
    then (m.content ∷ frames_from can_id ms)
    else frames_from can_id ms

feed-ignored : (r : Reassembler) (c : Bytes) → is_data_frame c ≡ false → feed r c ≡ (none, r)
unfolding feed
feed-ignored r [] h = refl
feed-ignored r (b ∷ bs) h = ground arith

-- The responses to the request among some payloads, up to the first that is not pending
abbrev pub select : ℕ → List Bytes → List Bytes → Option (List Bytes)
select sid responses [] = none
select sid responses (p ∷ ps) =
    if not (is_response_for_request p sid)
    then select sid responses ps
    else if is_response_pending p (some sid)
    then select sid (responses ++ (p ∷ [])) ps
    else some (responses ++ (p ∷ []))

feed_all-cons :
    (r : Reassembler) (f : Bytes) (fs : List Bytes)
    → (feed_all r (f ∷ fs)).0 ≡ deliver (feed r f).0 (feed_all (feed r f).1 fs).0
unfolding feed_all
feed_all-cons r f fs = refl

-- One message, and what is selected from what it delivers
abbrev delivered : ℕ → List Bytes → Option Bytes → Reassembler → List Bytes → Option (List Bytes)
delivered sid responses got r frames = select sid responses (deliver got (feed_all r frames).0)

module _ (can_id sid : ℕ) (r : Reassembler) (responses : List Bytes) (m : CanMessage)
    (ms : Received) where
  frames-mine :
      (m.arbitration_id == can_id) ≡ true
      → is_data_frame m.content ≡ true
      → (feed_all r (frames_from can_id (some m ∷ ms))).0
        ≡ deliver (feed r m.content).0 (feed_all (feed r m.content).1 (frames_from can_id ms)).0
  frames-mine mine carried = rw (mine, carried) (feed_all-cons r m.content (frames_from can_id ms))

  turn-other :
      (m.arbitration_id == can_id) ≡ false
      → on_message can_id sid r responses (some m) ≡ go_on r responses
  unfolding on_message
  turn-other other = rw (on_message, other)

  turn-ignored :
      (m.arbitration_id == can_id) ≡ true
      → is_data_frame m.content ≡ false
      → on_message can_id sid r responses (some m) ≡ go_on r responses
  unfolding on_message
  turn-ignored mine plain = rw (on_message, mine, feed-ignored r m.content plain)

  turn-nothing :
      (m.arbitration_id == can_id) ≡ true
      → (feed r m.content).0 ≡ none
      → on_message can_id sid r responses (some m) ≡ go_on (feed r m.content).1 responses
  unfolding on_message
  turn-nothing mine nothing = rw (on_message, mine, nothing)

  turn-payload :
      (p : Bytes)
      → (m.arbitration_id == can_id) ≡ true
      → (feed r m.content).0 ≡ some p
      → on_message can_id sid r responses (some m)
        ≡ on_assembled sid (feed r m.content).1 responses (some p)
  unfolding on_message
  turn-payload p mine got = rw (on_message, mine, got)

-- The loop is the selection from what the reassembler delivers.
after-select :
    (can_id sid : ℕ) (r : Reassembler) (responses ps : List Bytes) (p : Bytes) (ms : Received)
    → ((acc : List Bytes) → collect can_id sid r acc ms ≡ select sid acc ps)
    → after_turn can_id sid ms (on_assembled sid r responses (some p))
      ≡ select sid responses (p ∷ ps)
unfolding on_assembled
after-select can_id sid r responses ps p ms later =
    elim (Bool-cases (is_response_for_request p sid)) [
      | inr strange ↦ rw strange (later responses)
      | inl answers ↦ elim (Bool-cases (is_response_pending p (some sid))) [
        | inl pending ↦ rw (answers, pending) (later (responses ++ (p ∷ [])))
        | inr final ↦ rw (answers, final)
      ]
    ]

pub collect-select :
    (can_id sid : ℕ) (r : Reassembler) (responses : List Bytes) (ms : Received)
    → collect can_id sid r responses ms
      ≡ select sid responses (feed_all r (frames_from can_id ms)).0
unfolding collect on_message feed_all
collect-select can_id sid r responses [] = refl
collect-select can_id sid r responses (none ∷ ms) = collect-select can_id sid r responses ms
collect-select can_id sid r responses (some m ∷ ms) =
    let step = collect-cons can_id sid r responses (some m) ms in
    elim (Bool-cases (m.arbitration_id == can_id)) [
      | inr other ↦
          step
          ∙ ap (after_turn can_id sid ms) (turn-other can_id sid r responses m ms other)
          ∙ collect-select can_id sid r responses ms
          ∙ rw other
      | inl mine ↦ elim (Bool-cases (is_data_frame m.content)) [
        | inr plain ↦
            step
            ∙ ap (after_turn can_id sid ms) (turn-ignored can_id sid r responses m ms mine plain)
            ∙ collect-select can_id sid r responses ms
            ∙ rw (mine, plain)
        | inl carried ↦
            let next = (feed r m.content).1 in
            let later = (feed_all next (frames_from can_id ms)).0 in
            let frames = frames-mine can_id sid r responses m ms mine carried in
            elim (Option-cases (feed r m.content).0) [
              | inl nothing ↦
                  step
                  ∙ ap (after_turn can_id sid ms)
                      (turn-nothing can_id sid r responses m ms mine nothing)
                  ∙ collect-select can_id sid next responses ms
                  ∙ sym (ap (select sid responses) (frames ∙ ap (λ o. deliver o later) nothing))
              | inr (p, got) ↦
                  step
                  ∙ ap (after_turn can_id sid ms)
                      (turn-payload can_id sid r responses m ms p mine got)
                  ∙ after-select can_id sid next responses (feed_all next (frames_from can_id ms)).0
                      p ms (λ acc. collect-select can_id sid next acc ms)
                  ∙ sym (ap (select sid responses) (frames ∙ ap (λ o. deliver o later) got))
            ]
      ]
    ]

-- The messages that an ECU puts on the bus for some responses, one after the other
abbrev pub send_all : ℕ → List Received → List Bytes → List CanMessage
send_all can_id waits [] = []
send_all can_id waits (p ∷ ps) = (send can_id waits p).messages ++ send_all can_id waits ps

-- A response that fits one frame, so that no flow control is needed
abbrev pub IsSendable : Bytes → Type 0
IsSendable p = (0 < length p) × (length p ≤ 62)

feed-is_data_frame :
    (r : Reassembler) (f p : Bytes) → (feed r f).0 ≡ some p → is_data_frame f ≡ true
feed-is_data_frame r f p got = elim (Bool-cases (is_data_frame f)) [
  | inl carried ↦ carried
  | inr plain ↦ absurd (some-none (sym got ∙ ap (λ x. x.0) (feed-ignored r f plain)))
]
  where
    some-none : (some p ≡ none) → ⊥
    some-none e = cc

-- One response on the bus, and what the reassembler makes of it.
send-single :
    (can_id : ℕ) (waits : List Received) (r : Reassembler) (p : Bytes)
    → IsSendable p
    → (f : Bytes) × ((send can_id waits p).messages
        ≡ record { arbitration_id = can_id; content = f } ∷ [])
      × ((feed r f).0 ≡ some p)
send-single can_id waits r p (positive, short) =
    let (f, made, got, idle) = feed-single_frame r p positive short in
    let (f', made', fits) = single_frame-ok p short in
    let same : f' ≡ f = ok-same f' f (sym made' ∙ made) in
    (
      f,
      ap (λ s. s.messages)
            (send_short can_id waits p f' short made' ∙ then_send_fits can_id f' _ fits)
          ∙ ap (λ x. record { arbitration_id = can_id; content = x } ∷ []) same,
      got,
    )
  where
    ok-same : (x y : Bytes) → (ok x ≡ ok y) → x ≡ y
    ok-same x y e = cc

select-ends_pending :
    (sid : ℕ) (acc rs : List Bytes)
    → ends_pending sid rs ≡ true
    → select sid acc rs ≡ some (acc ++ rs)
unfolding ends_pending
select-ends_pending sid acc [] h = cc
select-ends_pending sid acc (r ∷ []) h = ground arith
select-ends_pending sid acc (r ∷ s ∷ rs) h =
    let later = select-ends_pending sid (acc ++ (r ∷ [])) (s ∷ rs) in
    ground (arith, later, append_assoc acc (r ∷ []) (s ∷ rs))

frames_from-append :
    (can_id : ℕ) (f : Bytes) (ms : List CanMessage)
    → is_data_frame f ≡ true
    → frames_from can_id (map some (record { arbitration_id = can_id; content = f } ∷ ms))
      ≡ f ∷ frames_from can_id (map some ms)
frames_from-append can_id f ms h = rw (==_self can_id, h)

-- The frames of the responses, and what the reassembler makes of them.
feed_all-send_all :
    (can_id : ℕ) (waits : List Received) (r : Reassembler) (ps : List Bytes)
    → All IsSendable ps
    → (feed_all r (frames_from can_id (map some (send_all can_id waits ps)))).0 ≡ ps
unfolding feed_all
feed_all-send_all can_id waits r [] h = refl
feed_all-send_all can_id waits r (p ∷ ps) (sendable, h) =
    let (f, sent, got) = send-single can_id waits r p sendable in
    rw (sent, frames_from-append can_id f (send_all can_id waits ps) (feed-is_data_frame r f p got))
      (feed_all-cons r f (frames_from can_id (map some (send_all can_id waits ps)))
        ∙ rw (got, feed_all-send_all can_id waits (feed r f).1 ps h))

-- An ECU sends one response or more of 1 to 62 bytes, of which the last and no other is not pending, by
-- IsoTpAdapter.send. Whatever else is on the bus, be it timeouts, messages with other identifiers, or
-- heartbeats and flow control with the ECU's own: a loop that receives, of the frames of types 0 to 2 with
-- the ECU's identifier, those that the ECU sent, in order and before the deadline, and no other, returns
-- these responses.
pub collect-send_all :
    (can_id sid : ℕ) (waits : List Received) (r : Reassembler) (rs : List Bytes) (ms : Received)
    → All IsSendable rs
    → ends_pending sid rs ≡ true
    → frames_from can_id ms ≡ frames_from can_id (map some (send_all can_id waits rs))
    → collect can_id sid r [] ms ≡ some rs
collect-send_all can_id sid waits r rs ms sendable h e =
    collect-select can_id sid r [] ms
    ∙ ap (λ fs. select sid [] (feed_all r fs).0) e
    ∙ ap (select sid []) (feed_all-send_all can_id waits r rs sendable)
    ∙ select-ends_pending sid [] rs h
