-- ===== src/Webhook/Cluster/Validation.antt =====
-- The parts of the validating hook: the object, and the permissions to accept a cluster and to move
-- it between sets.
use ocm_registration.Base.{
  String, Bool, true, List, [], ◌∷◌, Option, none, some, ◌≡◌, ◌≢◌, ◌↔◌, refl, ◌⊎◌, inl, inr, ◌==◌,
  string_eq, nat_eq, arith, All, if◌then◌else◌,
}
use ocm_registration.Kube.{
  Err, ok, Trace, Machinery, IsMachinery, AccessApi, UserInfo, ManagedCluster, ClientConfig,
  create_access_review,
}
use ocm_registration.Helpers.Status.{is_valid_https_url}
use ocm_registration.Helpers.Cleanup.{and_errors}
use ocm_registration.Webhook.Admission.{AdmissionResponse}
use ocm_registration.Webhook.Cluster.{
  accept_review, join_review, url_errors, validate_managed_cluster_obj, allow_set_cluster_set_label,
}

module _ (m : Machinery) (access : AccessApi) (parse_url : String → Option String)
    (unmarshal : String → ManagedCluster × Option Err) (error_text : Err → String) where
  abbrev pub ValidUrls : List ClientConfig → Type 0
  ValidUrls = All (λ (c : ClientConfig). is_valid_https_url parse_url c.url ≡ true)

  url_errors-ValidUrls : (cs : List ClientConfig) → (url_errors parse_url cs ≡ []) ↔ ValidUrls cs
  unfolding url_errors
  url_errors-ValidUrls [] = (λ _. tt, λ _. refl)
  url_errors-ValidUrls (c ∷ cs) = ground (arith, url_errors-ValidUrls cs)

  -- The object is valid exactly when it decodes without an error and every client config has an
  -- https URL.
  pub validate_managed_cluster_obj-ValidUrls :
      (k : IsMachinery m) (raw : String)
      → ((validate_managed_cluster_obj m access parse_url unmarshal error_text raw).1 ≡ none)
        ↔ (((unmarshal raw).1 ≡ none) × ValidUrls (unmarshal raw).0.client_configs)
  unfolding validate_managed_cluster_obj
  validate_managed_cluster_obj-ValidUrls k raw = (
    λ e.
        let both = no_errors (unmarshal raw).1 _ e in
        (both.0, (url_errors-ValidUrls (unmarshal raw).0.client_configs).0 both.1),
    λ (decoded, valid).
        rw (decoded, (url_errors-ValidUrls (unmarshal raw).0.client_configs).1 valid)
          k.aggregate-nil,
  )
    where
      no_errors :
          (failed : Option Err) (errs : List Err)
          → m.new_multi_line_aggregate (and_errors failed errs) ≡ none
          → (failed ≡ none) × (errs ≡ [])
      no_errors none [] e = (refl, refl)
      no_errors none (x ∷ errs) e = absurd (k.aggregate-cons x errs e)
      no_errors (some x) errs e = absurd (k.aggregate-cons x errs e)

  -- The user may move a cluster between the two sets: the review of each set that is named, of the
  -- original first, is answered by "allowed".
  abbrev pub MayMove : UserInfo → String → String → Trace → Type 0
  MayMove user original new h =
      (original ≡ new)
      ⊎ ((original ≢ "" → access.create_review h (join_review original user) ≡ ok true)
          × (new ≢ ""
              → access.create_review
                  (if original == ""
                    then h
                    else create_access_review (join_review original user) ∷ h)
                  (join_review new user)
                ≡ ok true))

  -- The check of a changed set label passes exactly when the user may move the cluster between the
  -- two sets.
  pub allow_set_cluster_set_label-MayMove :
      (user : UserInfo) (original new : String) (h : Trace)
      → ((allow_set_cluster_set_label m access parse_url unmarshal error_text user original new
            h).0.allowed
          ≡ true)
        ↔ MayMove user original new h
  unfolding allow_set_cluster_set_label
  allow_set_cluster_set_label-MayMove user original new h = (
    λ passed. elim (string_eq.dec original new) [
      | yes same ↦ inl same
      | no differ ↦ inr (λ named. ground arith, λ named. ground arith)
    ],
    λ may. ground arith,
  )

  abbrev pub object_of : String → ManagedCluster × Option Err
  object_of = validate_managed_cluster_obj m access parse_url unmarshal error_text

  abbrev pub asked : ManagedCluster → UserInfo → Trace → Trace
  asked c user h = create_access_review (accept_review c.name user) ∷ h

  abbrev pub MayAccept : Bool → ManagedCluster → UserInfo → Trace → Type 0
  MayAccept changed c user h =
      changed ≡ true → access.create_review h (accept_review c.name user) ≡ ok true

  abbrev pub label_check : UserInfo → String → String → Trace → AdmissionResponse × Trace
  label_check = allow_set_cluster_set_label m access parse_url unmarshal error_text
