-- ===== src/Zone/Guards.antt =====
-- What ZoneController.forward_uds (zones/base/zone_controller.py) lets through, and what it returns.
use virtual_automotive_ota_d.Prelude.{
  ℕ, ◌≡◌, refl, sym, ap, ◌∙◌, ◌≢◌, ◌⊎◌, inl, inr, Bool, true, false, Option, none, some, List, [],
  ◌∷◌, arith, contains, Option-cases, Exception, ok, err, runtime_error, key_error, Result-cases,
  Bytes, byte_at,
}
use virtual_automotive_ota_d.IsoTp.Frames.{CanMessage}
use virtual_automotive_ota_d.IsoTp.Sender.{send}
use virtual_automotive_ota_d.IsoTp.Receiver.{new}
use virtual_automotive_ota_d.Exchange.{collect, ends_pending}
use virtual_automotive_ota_d.Exchange.Collects.{collect-ends_pending}
use virtual_automotive_ota_d.Zone.Health.{
  HealthState, online, degraded, starting, offline, bus_off, security_locked, unknown_state, Ecu,
  Config, Zone, Rejection, not_owned, Availability, unmonitored, ecu_starting, ecu_online,
  ecu_offline, find_ecu, health_state, ecu_availability,
}
use virtual_automotive_ota_d.Zone.Service.{
  Outside, health_rejection, target_rejection, policy_rejection, is_programming_service, or_else,
  guards, with_request, reject, conclude, exchange, forward_uds,
}

abbrev pub is_operational : HealthState → Bool
is_operational online = true
is_operational degraded = true
is_operational starting = true
is_operational _ = false

-- The zone owns the target and is operational, the target is not offline, and the policy allows the
-- service.
pub record IsAllowed (c : Config) (o : Outside) (z : Zone) (address : ℕ) (payload : Bytes)
    : Type 0 where
  pub ecu : Ecu
  pub service_id : ℕ
  pub rest : Bytes
  pub owned : find_ecu c.ecus address ≡ some ecu
  pub operational : is_operational (health_state c z o.health_clock) ≡ true
  pub present : ecu_availability c z o.target_clock ecu ≢ ecu_offline
  pub payload_is : payload ≡ service_id ∷ rest
  pub service_allowed : contains c.allowed_services service_id ≡ true
  pub programming : is_programming_service service_id ≡ true → c.programming_allowed ≡ true

health_passes : (s : HealthState) → health_rejection s ≡ none → is_operational s ≡ true
health_passes online h = refl
health_passes degraded h = refl
health_passes starting h = refl
health_passes offline h = absurd (ground (arith, h))
health_passes bus_off h = absurd (ground (arith, h))
health_passes security_locked h = absurd (ground (arith, h))
health_passes unknown_state h = absurd (ground (arith, h))

target_passes : (a : Availability) → target_rejection a ≡ none → a ≢ ecu_offline
target_passes unmonitored h e = ground (arith, e)
target_passes ecu_starting h e = ground (arith, e)
target_passes ecu_online h e = ground (arith, e)
target_passes ecu_offline h e = ground (arith, h)

or_else-none : (a b : Option Rejection) → or_else a b ≡ none → (a ≡ none) × (b ≡ none)
or_else-none none b h = (refl, h)
or_else-none (some r) b h = absurd (ground (arith, h))

policy_passes :
    (c : Config) (payload : Bytes)
    → policy_rejection c payload ≡ none
    → (service_id : ℕ) × ((rest : Bytes) × (payload ≡ service_id ∷ rest)
        × (contains c.allowed_services service_id ≡ true)
        × (is_programming_service service_id ≡ true → c.programming_allowed ≡ true))
unfolding policy_rejection
policy_passes c [] h = absurd (ground (arith, h))
policy_passes c (s ∷ rest) h = (s, (rest, refl, ground (arith, h), λ p. ground (arith, h, p)))

module _ (c : Config) (o : Outside) (z : Zone) (address : ℕ) (payload : Bytes) where
  guards-IsAllowed :
      (ecu : Ecu)
      → find_ecu c.ecus address ≡ some ecu
      → guards c o z ecu payload ≡ none
      → IsAllowed c o z address payload
  unfolding guards
  guards-IsAllowed ecu found h =
      let (healthy, later) =
        or_else-none (health_rejection (health_state c z o.health_clock)) _ h in
      let (there, policy) =
        or_else-none (target_rejection (ecu_availability c z o.target_clock ecu)) _ later in
      let (service_id, (rest, is, allowed, programming)) = policy_passes c payload policy in
      record {
        ecu = ecu;
        service_id = service_id;
        rest = rest;
        owned = found;
        operational = health_passes (health_state c z o.health_clock) healthy;
        present = target_passes (ecu_availability c z o.target_clock ecu) there;
        payload_is = is;
        service_allowed = allowed;
        programming = programming;
      }

  -- What forward_uds did: it was rejected, or the request was allowed and exchanged with its ECU.
  pub forward_uds-cases :
      ((r : Rejection) × ((e : Exception) × (forward_uds c o z address payload
            ≡ reject (with_request z) r e)))
      ⊎ ((ecu : Ecu) × IsAllowed c o z address payload
          × (forward_uds c o z address payload ≡ exchange o (with_request z) ecu payload))
  unfolding forward_uds
  forward_uds-cases = elim (Option-cases (find_ecu c.ecus address)) [
    | inl absent ↦ inl (not_owned, (key_error "not owned by zone", rw (forward_uds, absent)))
    | inr (ecu, found) ↦ elim (Option-cases (guards c o z ecu payload)) [
      | inr (r, h) ↦ inl (r, (runtime_error "rejected by zone", rw (forward_uds, found, h)))
      | inl h ↦ inr (ecu, guards-IsAllowed ecu found h, rw (forward_uds, found, h))
    ]
  ]

  reject-bus : (r : Rejection) (e : Exception) → (reject (with_request z) r e).bus ≡ []
  unfolding reject
  reject-bus r e = refl

  -- A zone controller puts a message on its bus for a request only if the zone owns the target and is
  -- online, degraded or starting, the target is not offline, the request's service is one of those
  -- allowed, and programming is allowed if it is a programming service.
  pub forward_uds-IsAllowed :
      (forward_uds c o z address payload).bus ≢ [] → IsAllowed c o z address payload
  forward_uds-IsAllowed sent = elim forward_uds-cases [
    | inl (r, (e, same)) ↦ absurd (sent (ap (λ f. f.bus) same ∙ reject-bus r e))
    | inr (ecu, a, same) ↦ a
  ]

  reject-result : (r : Rejection) (e : Exception) → (reject (with_request z) r e).result ≡ err e
  unfolding reject
  reject-result r e = refl

conclude-result :
    (z : Zone) (bus : List CanMessage) (out : Option (List Bytes)) (rs : List Bytes)
    → (conclude z bus out).result ≡ ok rs
    → out ≡ some rs
unfolding conclude
conclude-result z bus none rs h = absurd (ground (arith, h))
conclude-result z bus (some qs) rs h = ground (arith, h)

pub exchange-conclude :
    (o : Outside) (z : Zone) (ecu : Ecu) (payload : Bytes) (done : Unit {0})
    → (send ecu.can_id o.waits payload).result ≡ ok done
    → exchange o z ecu payload
      ≡ conclude z
          (send ecu.can_id o.waits payload).messages
          (collect ecu.can_id (byte_at payload 0) (new 0 0) [] o.received)
unfolding exchange
exchange-conclude o z ecu payload done fine = rw (exchange, fine)

pub exchange-failed :
    (o : Outside) (z : Zone) (ecu : Ecu) (payload : Bytes) (e : Exception)
    → (send ecu.can_id o.waits payload).result ≡ err e
    → exchange o z ecu payload
      ≡ record { zone = z; bus = (send ecu.can_id o.waits payload).messages; result = err e }
unfolding exchange
exchange-failed o z ecu payload e failed = rw (exchange, failed)

exchange-ends_pending :
    (o : Outside) (z : Zone) (ecu : Ecu) (payload : Bytes) (rs : List Bytes)
    → (exchange o z ecu payload).result ≡ ok rs
    → ends_pending (byte_at payload 0) rs ≡ true
unfolding exchange
exchange-ends_pending o z ecu payload rs h =
    let sent = send ecu.can_id o.waits payload in
    elim (Result-cases sent.result) [
      | inr (e, failed) ↦
          let h' : err e ≡ ok rs =
            sym (ap (λ f. f.result) (exchange-failed o z ecu payload e failed)) ∙ h in
          absurd (ground (arith, h'))
      | inl (done, fine) ↦
          let out = collect ecu.can_id (byte_at payload 0) (new 0 0) [] o.received in
          let h' : (conclude z sent.messages out).result ≡ ok rs =
            sym (ap (λ f. f.result) (exchange-conclude o z ecu payload done fine)) ∙ h in
          collect-ends_pending ecu.can_id (byte_at payload 0) (new 0 0) [] o.received rs refl
            (conclude-result z sent.messages out rs h')
    ]

-- The responses that forward_uds returns are one or more responses to the request's service; the last
-- is not response-pending, and all others are.
pub forward_uds-ends_pending :
    (c : Config) (o : Outside) (z : Zone) (address : ℕ) (payload : Bytes) (rs : List Bytes)
    → (forward_uds c o z address payload).result ≡ ok rs
    → ends_pending (byte_at payload 0) rs ≡ true
forward_uds-ends_pending c o z address payload rs h =
    elim (forward_uds-cases c o z address payload) [
      | inl (r, (e, same)) ↦
          let h' : err e ≡ ok rs =
            sym (reject-result c o z address payload r e) ∙ sym (ap (λ f. f.result) same) ∙ h in
          absurd (ground (arith, h'))
      | inr (ecu, a, same) ↦
          exchange-ends_pending o (with_request z) ecu payload rs
            (sym (ap (λ f. f.result) same) ∙ h)
    ]
