-- ===== src/Zone/Counts.antt =====
-- The metrics of a ZoneController (zones/base/zone_controller.py) over its requests and heartbeats.
use virtual_automotive_ota_d.Prelude.{
  ℕ, ◌+◌, ◌≤◌, ◌≡◌, refl, inl, inr, Option, none, some, List, [], ◌∷◌, arith, Result, Exception, ok,
  err, Result-cases, Bytes, byte_at,
}
use virtual_automotive_ota_d.IsoTp.Frames.{CanMessage}
use virtual_automotive_ota_d.IsoTp.Sender.{send}
use virtual_automotive_ota_d.IsoTp.Receiver.{new}
use virtual_automotive_ota_d.Exchange.{collect}
use virtual_automotive_ota_d.Zone.Health.{Ecu, Config, Zone, Metrics, Rejection, on_heartbeat}
use virtual_automotive_ota_d.Zone.Service.{
  Outside, Forwarded, Input, request, monitored, run, with_request, reject, conclude, exchange,
  forward_uds,
}
use virtual_automotive_ota_d.Zone.Guards.{forward_uds-cases, exchange-conclude, exchange-failed}

-- The requests that came to a conclusion
abbrev pub concluded : Metrics → ℕ
concluded m = m.forwarded + (m.rejected + m.timeouts)

abbrev pub successes : List (Result (List Bytes)) → ℕ
successes [] = 0
successes (ok rs ∷ later) = 1 + successes later
successes (err e ∷ later) = successes later

abbrev pub requests_in : List Input → ℕ
requests_in [] = 0
requests_in (request o address payload ∷ is) = 1 + requests_in is
requests_in (monitored now message ∷ is) = requests_in is

-- What one request adds: itself, a success if it returned, and at most one conclusion.
record Adds (m : Metrics) (f : Forwarded) : Type 0 where
  requests : f.zone.metrics.requests ≡ m.requests + 1
  forwarded : f.zone.metrics.forwarded ≡ m.forwarded + successes (f.result ∷ [])
  at_most : concluded f.zone.metrics ≤ concluded m + 1

reject-Adds :
    (z : Zone) (r : Rejection) (e : Exception) → Adds z.metrics (reject (with_request z) r e)
unfolding reject
reject-Adds z r e = ground arith

conclude-Adds :
    (z : Zone) (bus : List CanMessage) (out : Option (List Bytes))
    → Adds z.metrics (conclude (with_request z) bus out)
unfolding conclude
conclude-Adds z bus none = ground arith
conclude-Adds z bus (some rs) = ground arith

exchange-Adds :
    (o : Outside) (z : Zone) (ecu : Ecu) (payload : Bytes)
    → Adds z.metrics (exchange o (with_request z) ecu payload)
exchange-Adds o z ecu payload = elim (Result-cases (send ecu.can_id o.waits payload).result) [
  | inl (done, fine) ↦ rw (exchange-conclude o (with_request z) ecu payload done fine) (
      conclude-Adds z (send ecu.can_id o.waits payload).messages
        (collect ecu.can_id (byte_at payload 0) (new 0 0) [] o.received))
  | inr (e, failed) ↦
      rw (exchange-failed o (with_request z) ecu payload e failed)
        (record { requests = refl; forwarded = omega arith; at_most = omega arith })
]

forward_uds-Adds :
    (c : Config) (o : Outside) (z : Zone) (address : ℕ) (payload : Bytes)
    → Adds z.metrics (forward_uds c o z address payload)
forward_uds-Adds c o z address payload = elim (forward_uds-cases c o z address payload) [
  | inl (r, (e, same)) ↦ rw same (reject-Adds z r e)
  | inr (ecu, a, same) ↦ rw same (exchange-Adds o z ecu payload)
]

-- A heartbeat counts no request.
record IsQuiet (m n : Metrics) : Type 0 where
  requests : n.requests ≡ m.requests
  forwarded : n.forwarded ≡ m.forwarded
  kept : concluded n ≡ concluded m

on_heartbeat-IsQuiet :
    (c : Config) (now : ℕ) (z : Zone) (message : Option CanMessage)
    → IsQuiet z.metrics (on_heartbeat c now z message).metrics
unfolding on_heartbeat
on_heartbeat-IsQuiet c now z none = ground arith
on_heartbeat-IsQuiet c now z (some m) = ground arith

successes-cons :
    (r : Result (List Bytes)) (rs : List (Result (List Bytes)))
    → successes (r ∷ rs) ≡ successes (r ∷ []) + successes rs
successes-cons (ok x) rs = omega arith
successes-cons (err e) rs = omega arith

-- In every run of requests and heartbeats the metrics count each request once, count as forwarded as many
-- as returned responses, and the requests counted as forwarded, rejected and timed out are together at
-- most as many more as there were requests.
pub run-counts :
    (c : Config) (z : Zone) (is : List Input)
    → ((run c z is).zone.metrics.requests ≡ z.metrics.requests + requests_in is)
      × ((run c z is).zone.metrics.forwarded ≡ z.metrics.forwarded + successes (run c z is).results)
      × (concluded (run c z is).zone.metrics ≤ concluded z.metrics + requests_in is)
run-counts c z [] = (omega arith, omega arith, omega arith)
run-counts c z (request o address payload ∷ is) =
    let f = forward_uds c o z address payload in
    let a = forward_uds-Adds c o z address payload in
    let (b, d, e) = run-counts c f.zone is in
    let s = successes-cons f.result (run c f.zone is).results in
    (omega (arith, a.requests, b), omega (arith, a.forwarded, d, s), omega (arith, a.at_most, e))
run-counts c z (monitored now message ∷ is) =
    let q = on_heartbeat-IsQuiet c now z message in
    let (b, d, e) = run-counts c (on_heartbeat c now z message) is in
    (omega (arith, q.requests, b), omega (arith, q.forwarded, d), omega (arith, q.kept, e))
