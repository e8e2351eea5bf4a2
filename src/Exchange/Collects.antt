-- ===== src/Exchange/Collects.antt =====
-- What the loop over the bus collects.
use virtual_automotive_ota_d.Prelude.{
  ℕ, ◌≡◌, refl, sym, ap, ◌∙◌, ◌⊎◌, inl, inr, Bool, true, false, ◌&&◌, Option, none, some, List, [],
  ◌∷◌, ◌++◌, arith, ◌==◌, Bool-cases, Bytes,
}
use virtual_automotive_ota_d.IsoTp.Frames.{CanMessage}
use virtual_automotive_ota_d.IsoTp.Sender.{Received}
use virtual_automotive_ota_d.IsoTp.Receiver.{Reassembler, feed}
use virtual_automotive_ota_d.Uds.Codec.{is_response_pending}
use virtual_automotive_ota_d.Exchange.{
  is_response_for_request, Turn, go_on, finish, on_assembled, on_message, collect, ends_pending,
}

-- Responses that are all pending
abbrev pub all_pending : ℕ → List Bytes → Bool
all_pending sid [] = true
all_pending sid (r ∷ rs) =
    (is_response_for_request r sid && is_response_pending r (some sid)) && all_pending sid rs

all_pending-append :
    (sid : ℕ) (rs : List Bytes) (r : Bytes)
    → all_pending sid rs ≡ true
    → is_response_for_request r sid ≡ true
    → is_response_pending r (some sid) ≡ true
    → all_pending sid (rs ++ (r ∷ [])) ≡ true
all_pending-append sid [] r h a b = rw (a, b)
all_pending-append sid (s ∷ rs) r h a b = ground (arith, all_pending-append sid rs r)

ends_pending-append :
    (sid : ℕ) (rs : List Bytes) (r : Bytes)
    → all_pending sid rs ≡ true
    → is_response_for_request r sid ≡ true
    → is_response_pending r (some sid) ≡ false
    → ends_pending sid (rs ++ (r ∷ [])) ≡ true
unfolding ends_pending
ends_pending-append sid [] r h a b = rw (a, b)
ends_pending-append sid (s ∷ []) r h a b = ground arith
ends_pending-append sid (s ∷ t ∷ rs) r h a b = ground (arith, ends_pending-append sid (t ∷ rs) r)

-- A turn keeps the responses pending, or ends them.
abbrev IsGood : ℕ → Turn → Type 0
IsGood sid (go_on r rs) = all_pending sid rs ≡ true
IsGood sid (finish rs) = ends_pending sid rs ≡ true

on_assembled-IsGood :
    (sid : ℕ) (r : Reassembler) (rs : List Bytes) (assembled : Option Bytes)
    → all_pending sid rs ≡ true
    → IsGood sid (on_assembled sid r rs assembled)
unfolding on_assembled
on_assembled-IsGood sid r rs none h = h
on_assembled-IsGood sid r rs (some a) h = elim (Bool-cases (is_response_for_request a sid)) [
  | inr other ↦ rw other h
  | inl mine ↦ elim (Bool-cases (is_response_pending a (some sid))) [
    | inl pending ↦ rw (mine, pending) (all_pending-append sid rs a h mine pending)
    | inr final ↦ rw (mine, final) (ends_pending-append sid rs a h mine final)
  ]
]

on_message-IsGood :
    (can_id sid : ℕ) (r : Reassembler) (rs : List Bytes) (m : Option CanMessage)
    → all_pending sid rs ≡ true
    → IsGood sid (on_message can_id sid r rs m)
unfolding on_message
on_message-IsGood can_id sid r rs none h = h
on_message-IsGood can_id sid r rs (some m) h = elim (Bool-cases (m.arbitration_id == can_id)) [
  | inr other ↦ rw other h
  | inl mine ↦ rw mine (on_assembled-IsGood sid (feed r m.content).1 rs (feed r m.content).0 h)
]

-- What one turn makes of the loop
abbrev pub after_turn : ℕ → ℕ → Received → Turn → Option (List Bytes)
after_turn can_id sid ms (go_on r rs) = collect can_id sid r rs ms
after_turn can_id sid ms (finish rs) = some rs

Turn-cases :
    (t : Turn)
    → ((r : Reassembler) × ((rs : List Bytes) × (t ≡ go_on r rs)))
      ⊎ ((rs : List Bytes) × (t ≡ finish rs))
Turn-cases (go_on r rs) = inl (r, (rs, refl))
Turn-cases (finish rs) = inr (rs, refl)

pub collect-cons :
    (can_id sid : ℕ) (r : Reassembler) (rs : List Bytes) (m : Option CanMessage) (ms : Received)
    → collect can_id sid r rs (m ∷ ms) ≡ after_turn can_id sid ms (on_message can_id sid r rs m)
unfolding collect
collect-cons can_id sid r rs m ms = elim (Turn-cases (on_message can_id sid r rs m)) [
  | inl (r', (rs', e)) ↦ rw (collect, e)
  | inr (rs', e) ↦ rw (collect, e)
]

pub collect-ends_pending :
    (can_id sid : ℕ) (r : Reassembler) (rs : List Bytes) (ms : Received) (out : List Bytes)
    → all_pending sid rs ≡ true
    → collect can_id sid r rs ms ≡ some out
    → ends_pending sid out ≡ true
unfolding collect
collect-ends_pending can_id sid r rs [] out h e = cc
collect-ends_pending can_id sid r rs (m ∷ ms) out h e =
    let good = on_message-IsGood can_id sid r rs m h in
    let e' = sym (collect-cons can_id sid r rs m ms) ∙ e in
    elim (Turn-cases (on_message can_id sid r rs m)) [
      | inl (r', (rs', t)) ↦
          let good' : all_pending sid rs' ≡ true = rw⁻¹ (ap (IsGood sid) t) good in
          collect-ends_pending can_id sid r' rs' ms out good'
            (ap (after_turn can_id sid ms) (sym t) ∙ e')
      | inr (rs', t) ↦
          let good' : ends_pending sid rs' ≡ true = rw⁻¹ (ap (IsGood sid) t) good in
          let same : rs' ≡ out = ground (arith, ap (after_turn can_id sid ms) (sym t) ∙ e') in
          rw⁻¹ same good'
    ]
