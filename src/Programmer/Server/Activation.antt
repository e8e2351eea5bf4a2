-- ===== src/Programmer/Server/Activation.antt =====
-- What becomes of the activation mark when a second image is requested.
use virtual_automotive_ota_d.Prelude.{◌≡◌, true, ◌∷◌, Bytes, arith}
use virtual_automotive_ota_d.Programmer.State.{Programmer, Env, require_programming_session}
use virtual_automotive_ota_d.Programmer.Flashing.{request_download, start_download}
use virtual_automotive_ota_d.Programmer.Server.{handle_uds, dispatch}

-- After a RequestDownload in the wake of which a download is open, whatever it carries, the activation
-- mark is what it was before: the mark of an earlier image stands for the image that comes.
pub request_download-keeps_activation :
    (env : Env) (p : Programmer) (rest : Bytes)
    → (handle_uds env p (0x34 ∷ rest)).state.download_requested ≡ true
    → (handle_uds env p (0x34 ∷ rest)).state.activation_marked ≡ p.activation_marked
unfolding handle_uds dispatch request_download start_download require_programming_session
request_download-keeps_activation env p rest open_download = ground arith
