-- ===== src/Spoke/HealthCheck/Health.antt =====
-- When the managed cluster counts as available.
use ocm_registration.Base.{ℕ, String, nat_eq, ◌≡◌, ◌⊎◌, ◌↔◌, arith}
use ocm_registration.Kube.{Err, condition_true, condition_false}
use ocm_registration.Hub.Lease.{available}
use ocm_registration.Spoke.HealthCheck.{Answer, check_kube_api_server_status}

module _ (number_text : ℕ → String) (error_text : Err → String) where
  -- The cluster is available exactly when /livez answers 200, or it answers 404 or 403 and /healthz
  -- answers 200; otherwise the condition is false, and always one of availability.
  pub check_kube_api_server_status_lem :
      (livez healthz : Answer)
      → let c = check_kube_api_server_status number_text error_text livez healthz in
        (c.type ≡ available)
        × ((c.status ≡ condition_true) ↔ (
            (livez.status_code ≡ 200)
            ⊎ (((livez.status_code ≡ 404) ⊎ (livez.status_code ≡ 403))
                × (healthz.status_code ≡ 200))))
        × ((c.status ≡ condition_true) ⊎ (c.status ≡ condition_false))
  unfolding check_kube_api_server_status
  check_kube_api_server_status_lem livez healthz = ground arith
