-- ===== src/Gateway/Services.antt =====
-- The services of DoIPServer._handle_raw_uds_message (transport/doip/server.py) one by one: what holds of
-- each holds of the handler.
use virtual_automotive_ota_d.Prelude.{
  ==_iff, ◌≡◌, refl, Bool, true, false, Option, none, some, arith, length, leb, ◌==◌, if◌then◌else◌,
  Bytes, byte_at,
}
use virtual_automotive_ota_d.Gateway.Context.{Context, Env, Handled}
use virtual_automotive_ota_d.Gateway.Session.{
  diagnostic_session_control, tester_present, read_data_by_identifier, security_access,
}
use virtual_automotive_ota_d.Gateway.Flashing.{
  routine_control, request_download, transfer_data, request_transfer_exit, ecu_reset,
}
use virtual_automotive_ota_d.Gateway.Handler.{handle_raw_uds_message}

module _ (P : Handled → Type 0) where
  pick :
      (b : Bool) (x h : Handled) (rest : Option Handled)
      → (b ≡ true → P x)
      → (rest ≡ some h → P h)
      → (if b then some x else rest) ≡ some h
      → P h
  pick true x h rest p q e = let same : x ≡ h = ground (arith, e) in rw⁻¹ same (p refl)
  pick false x h rest p q e = q e

  skip_none :
      (b : Bool) (h : Handled) (rest : Option Handled)
      → (rest ≡ some h → P h)
      → (if b then none else rest) ≡ some h
      → P h
  skip_none true h rest q e = absurd (ground (arith, e))
  skip_none false h rest q e = q e

  -- What holds of the service that answers a payload
  pub record OfServices (env : Env) (ecu : Context) (payload : Bytes) : Type 0 where
    pub session : byte_at payload 0 ≡ 0x10 → P (diagnostic_session_control env ecu payload)
    pub present : byte_at payload 0 ≡ 0x3E → P (tester_present env ecu payload)
    pub identifier : byte_at payload 0 ≡ 0x22 → P (read_data_by_identifier env ecu payload)
    pub access : byte_at payload 0 ≡ 0x27 → P (security_access env ecu payload)
    pub routine : byte_at payload 0 ≡ 0x31 → P (routine_control env ecu payload)
    pub download : byte_at payload 0 ≡ 0x34 → P (request_download env ecu payload)
    pub transfer : byte_at payload 0 ≡ 0x36 → P (transfer_data env ecu payload)
    pub exit : byte_at payload 0 ≡ 0x37 → P (request_transfer_exit env ecu)
    pub restart : byte_at payload 0 ≡ 0x11 → P (ecu_reset env ecu payload)

  pub handle-OfServices :
      (env : Env) (ecu : Context) (payload : Bytes) (h : Handled)
      → OfServices env ecu payload
      → handle_raw_uds_message env ecu payload ≡ some h
      → P h
  unfolding handle_raw_uds_message
  handle-OfServices env ecu payload h s = skip_none (leb (length payload) 0) h _ (
      pick (byte_at payload 0 == 0x10) _ h _
        (λ e. s.session ((==_iff (byte_at payload 0) 0x10).0 e))
        (pick (byte_at payload 0 == 0x3E) _ h _
          (λ e. s.present ((==_iff (byte_at payload 0) 0x3E).0 e))
          (pick (byte_at payload 0 == 0x22) _ h _
            (λ e. s.identifier ((==_iff (byte_at payload 0) 0x22).0 e))
            (pick (byte_at payload 0 == 0x27) _ h _
              (λ e. s.access ((==_iff (byte_at payload 0) 0x27).0 e))
              (pick (byte_at payload 0 == 0x31) _ h _
                (λ e. s.routine ((==_iff (byte_at payload 0) 0x31).0 e))
                (pick (byte_at payload 0 == 0x34) _ h _
                  (λ e. s.download ((==_iff (byte_at payload 0) 0x34).0 e))
                  (pick (byte_at payload 0 == 0x36) _ h _
                    (λ e. s.transfer ((==_iff (byte_at payload 0) 0x36).0 e))
                    (pick (byte_at payload 0 == 0x37) _ h _
                      (λ e. s.exit ((==_iff (byte_at payload 0) 0x37).0 e))
                      (pick (byte_at payload 0 == 0x11) _ h _
                        (λ e. s.restart ((==_iff (byte_at payload 0) 0x11).0 e))
                        (λ e. absurd (ground (arith, e))))))))))))
