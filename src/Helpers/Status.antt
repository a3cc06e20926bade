-- ===== src/Helpers/Status.antt =====
-- pkg/helpers/helpers.go: the status updates of clusters and add-ons, retried on a conflict, and
-- the small predicates. `retry` stands for client-go's `RetryOnConflict` with its default backoff.
pub mod Laws
pub mod Retries
pub mod AddOns
use ocm_registration.Base.{
  ℕ, zero, suc, String, Bool, true, false, List, [], ◌∷◌, Option, none, some, ◌≡◌, ◌==◌, string_eq,
  ◌||◌, if◌then◌else◌,
}
use ocm_registration.Kube.{
  Err, Result, ok, err, is_conflict, Exec, Trace, pure, request, ◌>>=◌, handle, Machinery,
  ClusterApi, AddOnApi, Condition, ManagedClusterStatus, AddOnStatus, CsrCondition,
  CsrConditionType, certificate_approved, certificate_denied, certificate_failed, read, get_cluster,
  update_cluster_status, get_addon, update_addon_status,
}

-- `UpdateManagedClusterStatusFunc` and `UpdateManagedClusterAddOnStatusFunc`.
abbrev pub UpdateFunc : Type 0 → Type 0
UpdateFunc S = S → Result S

-- The loop over `updateFuncs`, which stops at the first error.
unfoldable pub apply_updates : {S : Type 0} → List (UpdateFunc S) → S → Result S
apply_updates [] s = ok s
apply_updates (f ∷ fs) s = elim (f s) [ ok t ↦ apply_updates fs t | err e ↦ err e ]

abbrev is_conflicted : {A : Type 0} → Result A → Bool
is_conflicted (ok a) = false
is_conflicted (err e) = is_conflict e

-- What is documented of `RetryOnConflict`: it runs the function, and again after each conflict, at
-- most `more` times.
unfoldable pub attempts : {A : Type 0} → ℕ → Exec A → Exec A
attempts zero m h = m h
attempts (suc more) m h =
    let (r, h') = m h in
    let again = attempts more m h' in if is_conflicted r then again else (r, h')

pub record IsRetry {A : Type 0} (retry : Exec A → Exec A) : Type 0 where
  pub more : ℕ
  pub retry_lem : (m : Exec A) (h : Trace) → retry m h ≡ attempts more m h

module _ (m : Machinery) where
  unfoldable pub update_managed_cluster_condition_fn : Condition → UpdateFunc ManagedClusterStatus
  update_managed_cluster_condition_fn c status =
      ok (record status { conditions = m.set_status_condition status.conditions c })

  unfoldable pub update_managed_cluster_addon_status_fn : Condition → UpdateFunc AddOnStatus
  update_managed_cluster_addon_status_fn c status =
      ok (record status { conditions = m.set_status_condition status.conditions c })

module _ (m : Machinery) (api : ClusterApi) where
  -- The function that is retried. The flag is `updated`.
  unfoldable pub attempt_cluster_status :
      String → List (UpdateFunc ManagedClusterStatus) → Exec (ManagedClusterStatus × Bool)
  unfolding apply_updates
  attempt_cluster_status name update_funcs = do
    cluster ← request (get_cluster name) (λ h. api.get h name)
    new_status ← read (λ h. apply_updates update_funcs cluster.status)
    if m.same_cluster_status cluster.status new_status then pure (new_status, false) else do
      let updated = record cluster { status = new_status }
      answer ← request (update_cluster_status updated) (λ h. api.update_status h updated)
      pure (answer.status, true)

  unfoldable pub update_managed_cluster_status :
      (Exec (ManagedClusterStatus × Bool) → Exec (ManagedClusterStatus × Bool))
      → String
      → List (UpdateFunc ManagedClusterStatus)
      → Exec (ManagedClusterStatus × Bool)
  unfolding attempt_cluster_status
  update_managed_cluster_status retry name update_funcs =
      retry (attempt_cluster_status name update_funcs)

module _ (m : Machinery) (api : AddOnApi) where
  unfoldable pub attempt_addon_status :
      String → String → List (UpdateFunc AddOnStatus) → Exec (AddOnStatus × Bool)
  unfolding apply_updates
  attempt_addon_status namespace name update_funcs = do
    addon ← request (get_addon namespace name) (λ h. api.get h namespace name)
    new_status ← read (λ h. apply_updates update_funcs addon.status)
    if m.same_addon_status addon.status new_status then pure (new_status, false) else do
      let updated = record addon { status = new_status }
      answer ← request (update_addon_status updated) (λ h. api.update_status h updated)
      pure (answer.status, true)

  unfoldable pub update_managed_cluster_addon_status :
      (Exec (AddOnStatus × Bool) → Exec (AddOnStatus × Bool))
      → String
      → String
      → List (UpdateFunc AddOnStatus)
      → Exec (AddOnStatus × Bool)
  unfolding attempt_addon_status
  update_managed_cluster_addon_status retry namespace name update_funcs =
      retry (attempt_addon_status namespace name update_funcs)

abbrev is_terminal_condition : CsrConditionType → Bool
is_terminal_condition certificate_approved = true
is_terminal_condition certificate_denied = true
is_terminal_condition certificate_failed = false

unfoldable pub is_csr_in_terminal_state : List CsrCondition → Bool
is_csr_in_terminal_state [] = false
is_csr_in_terminal_state (c ∷ cs) = is_terminal_condition c.type || is_csr_in_terminal_state cs

-- `url.Parse` is a parameter: the scheme of a text that is a URL.
unfoldable pub is_valid_https_url : (String → Option String) → String → Bool
is_valid_https_url parse_url server_url =
    if server_url == ""
    then false
    else elim (parse_url server_url) [ none ↦ false | some scheme ↦ scheme == "https" ]
