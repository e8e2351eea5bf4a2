-- ===== src/Gateway/Forwarding.antt =====
-- DoIPServer (transport/doip/server.py) where it does not answer for an ECU itself: the request goes over
-- CAN to the ECU, and its responses go back to the tester, with the gateway's block length.
use virtual_automotive_ota_d.Prelude.{
  ℕ, ◌^◌, ◌<◌, ◌≡◌, refl, ◌∙◌, inl, inr, true, Option, none, some, List, [], ◌∷◌, arith, ◌==◌,
  if◌then◌else◌, Bool-cases, Result, ok, err, timeout_error, ◌>>=◌, >>=-eq-ok, Bytes, byte_at,
}
use virtual_automotive_ota_d.IsoTp.Sender.{Received, send}
use virtual_automotive_ota_d.IsoTp.Receiver.{new}
use virtual_automotive_ota_d.Uds.Codes.{sid_request_download}
use virtual_automotive_ota_d.Uds.Codec.{
  is_response_pending, parse_request_download_max_block_length,
}
use virtual_automotive_ota_d.Exchange.{is_response_for_request, collect, ends_pending}
use virtual_automotive_ota_d.Exchange.Collects.{collect-ends_pending}
use virtual_automotive_ota_d.Gateway.Server.{rewrite_request_download_response, rewrite_all}

abbrev pub conclude : Option (List Bytes) → Result (List Bytes)
conclude none = err (timeout_error "Timed out waiting for CAN response")
conclude (some responses) = ok responses

unfoldable pub forward_uds_over_can : ℕ → List Received → Received → Bytes → Result (List Bytes)
forward_uds_over_can can_id waits received payload = (send can_id waits payload).result >>= λ done.
    conclude (collect can_id (byte_at payload 0) (new 0 0) [] received)

-- What `process` sends to the tester for it
abbrev pub forwarded_responses : ℕ → Bytes → List Bytes → List Bytes
forwarded_responses block_length request rs =
    if byte_at request 0 == sid_request_download then rewrite_all block_length rs else rs

rewrite-is_response :
    (b : ℕ) (r : Bytes) (sid : ℕ)
    → is_response_for_request (rewrite_request_download_response b r) sid
      ≡ is_response_for_request r sid
unfolding rewrite_request_download_response is_response_for_request
rewrite-is_response b [] sid = refl
rewrite-is_response b (x ∷ xs) sid = ground arith

rewrite-is_pending :
    (b : ℕ) (r : Bytes) (sid : ℕ)
    → is_response_pending (rewrite_request_download_response b r) (some sid)
      ≡ is_response_pending r (some sid)
unfolding rewrite_request_download_response is_response_pending
rewrite-is_pending b [] sid = refl
rewrite-is_pending b (x ∷ xs) sid = ground arith

rewrite_all-ends_pending :
    (b sid : ℕ) (rs : List Bytes) → ends_pending sid (rewrite_all b rs) ≡ ends_pending sid rs
unfolding ends_pending
rewrite_all-ends_pending b sid [] = refl
rewrite_all-ends_pending b sid (r ∷ []) =
    rw (rewrite-is_response b r sid, rewrite-is_pending b r sid)
rewrite_all-ends_pending b sid (r ∷ s ∷ rs) = rw (
  rewrite-is_response b r sid,
  rewrite-is_pending b r sid,
  rewrite_all-ends_pending b sid (s ∷ rs),
)

conclude-ok : (out : Option (List Bytes)) (rs : List Bytes) → conclude out ≡ ok rs → out ≡ some rs
conclude-ok none rs h = absurd (ground (arith, h))
conclude-ok (some qs) rs h = ground (arith, h)

-- The responses of an ECU that the gateway forwards to the tester are one or more responses to the
-- request's service, with the block length rewritten or not; the last is not response-pending, and all
-- others are.
pub forwarded-ends_pending :
    (can_id : ℕ) (waits : List Received) (received : Received) (payload : Bytes) (block_length : ℕ)
    (rs : List Bytes)
    → forward_uds_over_can can_id waits received payload ≡ ok rs
    → ends_pending (byte_at payload 0) (forwarded_responses block_length payload rs) ≡ true
unfolding forward_uds_over_can
forwarded-ends_pending can_id waits received payload block_length rs h =
    let sid = byte_at payload 0 in
    let out = collect can_id sid (new 0 0) [] received in
    let (done, sent, concluded) =
      >>=-eq-ok (send can_id waits payload).result (λ done. conclude out) h in
    let ended =
      collect-ends_pending can_id sid (new 0 0) [] received rs refl
        (conclude-ok out rs concluded) in
    elim (Bool-cases (sid == sid_request_download)) [
      | inl download ↦ rw download (rewrite_all-ends_pending block_length sid rs ∙ ended)
      | inr other ↦ rw other ended
    ]

-- From a positive response to RequestDownload of five bytes or more the client reads, once the gateway has
-- rewritten it, the gateway's block length, if that is positive and fits in two bytes.
pub parse-rewrite :
    (b : ℕ) (format length_high third fourth : ℕ) (rest : Bytes)
    → 0 < b
    → b < 2 ^ 16
    → parse_request_download_max_block_length
        (rewrite_request_download_response b (0x74 ∷ format ∷ length_high ∷ third ∷ fourth ∷ rest))
      ≡ some b
unfolding parse_request_download_max_block_length rewrite_request_download_response
parse-rewrite b format length_high third fourth rest h k = ground arith
