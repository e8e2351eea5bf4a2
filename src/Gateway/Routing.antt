-- ===== src/Gateway/Routing.antt =====
-- DoIPServer.process (transport/doip/server.py) seen from one ECU: which packets reach it.
use virtual_automotive_ota_d.Prelude.{
  ℕ, ◌≡◌, refl, ap, ◌∙◌, ◌⊎◌, inl, inr, true, false, Option, none, some, List, [], ◌∷◌, ◌++◌, arith,
  ℕ_discrete, ◌==◌, if◌then◌else◌, Bool-cases, Option-cases, Result, Exception, ok, err,
  Result-cases, ==_self, Bytes,
}
use virtual_automotive_ota_d.Doip.{Packet, parse_diagnostic_payload}
use virtual_automotive_ota_d.Gateway.Context.{Context, Event, Handled}
use virtual_automotive_ota_d.Gateway.Handler.{handle_raw_uds_message, is_raw_uds_payload}
use virtual_automotive_ota_d.Gateway.Server.{
  Ecus, get, put, Outside, Processed, idle, answer, tagged, responses, send_all, forward, proxy,
  diagnostic, on_diagnostic, process, diagnostic_message,
}

abbrev pub events_at : ℕ → List (ℕ × Event) → List Event
events_at address [] = []
events_at address ((a, e) ∷ es) =
    if a == address then (e ∷ events_at address es) else events_at address es

pub events_at-append :
    (address : ℕ) (es fs : List (ℕ × Event))
    → events_at address (es ++ fs) ≡ events_at address es ++ events_at address fs
events_at-append address [] fs = refl
events_at-append address ((a, e) ∷ es) fs = ground (arith, events_at-append address es fs)

events_at-tagged : (address : ℕ) (es : List Event) → events_at address (tagged address es) ≡ es
events_at-tagged address [] = refl
events_at-tagged address (e ∷ es) = rw (==_self address, events_at-tagged address es)

events_at-other : (a b : ℕ) (es : List Event) → (a == b) ≡ false → events_at b (tagged a es) ≡ []
events_at-other a b [] h = refl
events_at-other a b (e ∷ es) h = rw (h, events_at-other a b es h)

get-put :
    (ecus : Ecus) (address : ℕ) (old ecu : Context)
    → get ecus address ≡ some old
    → get (put ecus address ecu) address ≡ some ecu
get-put [] address old ecu h = cc
get-put ((a, e) ∷ ecus) address old ecu h = elim (Bool-cases (a == address)) [
  | inl same ↦ rw (same, same)
  | inr other ↦ rw (other, other) (get-put ecus address old ecu (ground arith))
]

get-put_other :
    (ecus : Ecus) (a b : ℕ) (ecu : Context) → (a == b) ≡ false → get (put ecus a ecu) b ≡ get ecus b
get-put_other [] a b ecu h = refl
get-put_other ((c, e) ∷ ecus) a b ecu h = elim (Bool-cases (c == a)) [
  | inl same ↦ let other : (c == b) ≡ false = ground arith in rw (same, other)
  | inr differs ↦ elim (Bool-cases (c == b)) [
    | inl here ↦ rw (differs, here)
    | inr other ↦ rw (differs, other) (get-put_other ecus a b ecu h)
  ]
]

-- The ECU at the address is as it was, and nothing happened at it.
pub record IsUntouched (ecus : Ecus) (address : ℕ) (p : Processed) : Type 0 where
  pub same : get p.ecus address ≡ get ecus address
  pub quiet : events_at address p.events ≡ []

-- The packet was a diagnostic message to that address, and the handler answered it.
pub record IsHandled (o : Outside) (ecus : Ecus) (packet : Packet) (address : ℕ) (p : Processed)
    : Type 0 where
  pub ecu : Context
  pub source : ℕ
  pub request : Bytes
  pub handled : Handled
  pub type_is : packet.0 ≡ diagnostic_message
  pub parsed : parse_diagnostic_payload packet.1 ≡ ok (source, address, request)
  pub found : get ecus address ≡ some ecu
  pub answered : handle_raw_uds_message o.env ecu request ≡ some handled
  pub after : get p.ecus address ≡ some handled.state
  pub happened : events_at address p.events ≡ handled.events

answer-IsUntouched :
    (ecus : Ecus) (address : ℕ) (raised : Option Exception) (sent : Result (List Bytes))
    → IsUntouched ecus address (answer ecus [] raised sent)
answer-IsUntouched ecus address raised (ok sent) = record { same = refl; quiet = refl }
answer-IsUntouched ecus address raised (err e) = record { same = refl; quiet = refl }

forward-IsUntouched :
    (o : Outside) (ecus : Ecus) (source target : ℕ) (request : Bytes) (address : ℕ)
    → IsUntouched ecus address (forward o ecus source target request)
unfolding forward
forward-IsUntouched o ecus source target request address = elim (Result-cases o.forwarded) [
  | inl (rs, e) ↦ rw e (answer-IsUntouched ecus address none _)
  | inr (x, e) ↦ rw e (record { same = refl; quiet = refl })
]

answer-ecus :
    (ecus : Ecus) (events : List (ℕ × Event)) (raised : Option Exception)
    (sent : Result (List Bytes))
    → ((answer ecus events raised sent).ecus ≡ ecus)
      × ((answer ecus events raised sent).events ≡ events)
answer-ecus ecus events raised (ok sent) = (refl, refl)
answer-ecus ecus events raised (err e) = (refl, refl)

-- The message was for that address, and the handler answered it.
record Reached (o : Outside) (ecus : Ecus) (target : ℕ) (request : Bytes) (address : ℕ)
    (p : Processed) : Type 0 where
  here : target ≡ address
  ecu : Context
  handled : Handled
  found : get ecus address ≡ some ecu
  answered : handle_raw_uds_message o.env ecu request ≡ some handled
  after : get p.ecus address ≡ some handled.state
  happened : events_at address p.events ≡ handled.events

proxy-at :
    (o : Outside) (ecus : Ecus) (source target : ℕ) (request : Bytes) (address : ℕ) (ecu : Context)
    (h : Handled)
    → get ecus target ≡ some ecu
    → handle_raw_uds_message o.env ecu request ≡ some h
    → IsUntouched ecus address (proxy o ecus source target request (some h))
      ⊎ Reached o ecus target request address (proxy o ecus source target request (some h))
unfolding proxy
proxy-at o ecus source target request address ecu h found answered =
    let sent = send_all h.state.logical_address source (responses h.events) in
    let (moved, seen) =
      answer-ecus (put ecus target h.state) (tagged target h.events) h.raised sent in
    elim (ℕ_discrete target address) [
      | yes e ↦ inr record {
        here = e;
        ecu = ecu;
        handled = h;
        found = rw⁻¹ e found;
        answered = answered;
        after = ap (λ x. get x address) moved ∙ rw⁻¹ e (get-put ecus target ecu h.state found);
        happened = ap (events_at address) seen ∙ rw⁻¹ e (events_at-tagged target h.events);
      }
      | no n ↦
          let other : (target == address) ≡ false = ground arith in
          inl record {
            same = ap (λ x. get x address) moved ∙ get-put_other ecus target address h.state other;
            quiet = ap (events_at address) seen ∙ events_at-other target address h.events other;
          }
    ]

idle-IsUntouched : (ecus : Ecus) (address : ℕ) → IsUntouched ecus address (idle ecus)
idle-IsUntouched ecus address = record { same = refl; quiet = refl }

proxy-none :
    (o : Outside) (ecus : Ecus) (source target : ℕ) (request : Bytes)
    → proxy o ecus source target request none ≡ forward o ecus source target request
unfolding proxy
proxy-none o ecus source target request = refl

-- With a context at the target and a raw UDS payload
diagnostic-proxy :
    (o : Outside) (ecus : Ecus) (source target : ℕ) (request : Bytes) (ecu : Context)
    → get ecus target ≡ some ecu
    → is_raw_uds_payload request ≡ true
    → diagnostic o ecus source target request
      ≡ proxy o ecus source target request
          (if o.proxy_flash_enabled then handle_raw_uds_message o.env ecu request else none)
unfolding diagnostic
diagnostic-proxy o ecus source target request ecu found raw = rw (diagnostic, found, raw)

diagnostic-idle :
    (o : Outside) (ecus : Ecus) (source target : ℕ) (request : Bytes)
    → (get ecus target ≡ none) ⊎ (is_raw_uds_payload request ≡ false)
    → diagnostic o ecus source target request ≡ idle ecus
unfolding diagnostic
diagnostic-idle o ecus source target request (inl absent) = rw (diagnostic, absent)
diagnostic-idle o ecus source target request (inr odd) = elim (Option-cases (get ecus target)) [
  | inl absent ↦ rw (diagnostic, absent)
  | inr (ecu, found) ↦ rw (diagnostic, found, odd)
]

forwarded-at :
    (o : Outside) (ecus : Ecus) (source target : ℕ) (request : Bytes) (address : ℕ) (p : Processed)
    → p ≡ proxy o ecus source target request none
    → IsUntouched ecus address p
forwarded-at o ecus source target request address p e =
    rw (e, proxy-none o ecus source target request)
      (forward-IsUntouched o ecus source target request address)

diagnostic-at :
    (o : Outside) (ecus : Ecus) (source target : ℕ) (request : Bytes) (address : ℕ)
    → IsUntouched ecus address (diagnostic o ecus source target request)
      ⊎ Reached o ecus target request address (diagnostic o ecus source target request)
diagnostic-at o ecus source target request address = elim (Option-cases (get ecus target)) [
  | inl absent ↦ inl (
      rw (diagnostic-idle o ecus source target request (inl absent))
        (idle-IsUntouched ecus address))
  | inr (ecu, found) ↦ elim (Bool-cases (is_raw_uds_payload request)) [
    | inr odd ↦ inl (
        rw (diagnostic-idle o ecus source target request (inr odd)) (idle-IsUntouched ecus address))
    | inl raw ↦
        let e = diagnostic-proxy o ecus source target request ecu found raw in
        elim (Bool-cases o.proxy_flash_enabled) [
          | inr off ↦ inl (forwarded-at o ecus source target request address _ (e ∙ rw off))
          | inl enabled ↦ elim (Option-cases (handle_raw_uds_message o.env ecu request)) [
            | inl unknown ↦
                inl
                  (forwarded-at o ecus source target request address _ (e ∙ rw (enabled, unknown)))
            | inr (h, answered) ↦
                let e' : diagnostic o ecus source target request
                    ≡ proxy o ecus source target request (some h) =
                  e ∙ rw (enabled, answered) in
                rw e' (proxy-at o ecus source target request address ecu h found answered)
          ]
        ]
  ]
]

-- A packet that is not a diagnostic message, or not a whole one
process-other :
    (o : Outside) (ecus : Ecus) (payload_type : ℕ) (payload : Bytes) (address : ℕ)
    → (payload_type == diagnostic_message) ≡ false
    → IsUntouched ecus address (process o ecus (payload_type, payload))
unfolding process
process-other o ecus payload_type payload address other = elim (Bool-cases (payload_type == 1)) [
  | inl e ↦ rw e (answer-IsUntouched ecus address none _)
  | inr a ↦ elim (Bool-cases (payload_type == 5)) [
    | inl e ↦ rw (a, e) (answer-IsUntouched ecus address none _)
    | inr b ↦ elim (Bool-cases (payload_type == 7)) [
      | inl e ↦ rw (a, b, e) (answer-IsUntouched ecus address none _)
      | inr c ↦ rw (a, b, c, other) (idle-IsUntouched ecus address)
    ]
  ]
]

process-diagnostic :
    (o : Outside) (ecus : Ecus) (payload : Bytes)
    → process o ecus (diagnostic_message, payload)
      ≡ on_diagnostic o ecus (parse_diagnostic_payload payload)
unfolding process
process-diagnostic o ecus payload = refl

-- What a packet does at one address: nothing, or it was a diagnostic message to that address which the
-- handler answered, and the ECU is left as the handler leaves it.
pub process-at :
    (o : Outside) (ecus : Ecus) (packet : Packet) (address : ℕ)
    → IsUntouched ecus address (process o ecus packet)
      ⊎ IsHandled o ecus packet address (process o ecus packet)
process-at o ecus (payload_type, payload) address =
    elim (ℕ_discrete payload_type diagnostic_message) [
      | no n ↦ inl (process-other o ecus payload_type payload address (ground arith))
      | yes t ↦ rw t (elim (Result-cases (parse_diagnostic_payload payload)) [
        | inr (x, e) ↦
            inl (rw (process-diagnostic o ecus payload, e) (record { same = refl; quiet = refl }))
        | inl ((source, target, request), e) ↦
            rw (process-diagnostic o ecus payload, e)
              (elim (diagnostic-at o ecus source target request address) [
                | inl u ↦ inl u
                | inr r ↦ inr record {
                  ecu = r.ecu;
                  source = source;
                  request = request;
                  handled = r.handled;
                  type_is = refl;
                  parsed = e ∙ rw r.here;
                  found = r.found;
                  answered = r.answered;
                  after = r.after;
                  happened = r.happened;
                }
              ])
      ])
    ]
