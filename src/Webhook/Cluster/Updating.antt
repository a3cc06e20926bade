-- ===== src/Webhook/Cluster/Updating.antt =====
-- When a request to update a cluster passes.
use ocm_registration.Base.{
  String, Bool, true, false, List, Option, none, ◌≡◌, ◌↔◌, refl, inl, inr, string_eq, nat_eq, arith,
  if◌then◌else◌, subst, Bool-cases, Option-cases,
}
use ocm_registration.Base.Dict.{at}
use ocm_registration.Kube.{
  Err, Result-cases, Trace, Machinery, IsMachinery, AccessApi, UserInfo, ManagedCluster,
  ClientConfig,
}
use ocm_registration.Webhook.Admission.{Operation, AdmissionRequest, AdmissionResponse}
use ocm_registration.Webhook.Cluster.{
  cluster_set_label, accept_review, is_managed_cluster, validate_update_request, validate,
}
use mathlib.Core.Bool.{xor}
use ocm_registration.Webhook.Cluster.Validation.{
  ValidUrls, MayMove, MayAccept, asked, label_check, object_of,
  validate_managed_cluster_obj-ValidUrls, allow_set_cluster_set_label-MayMove,
}

module _ (m : Machinery) (access : AccessApi) (parse_url : String → Option String)
    (unmarshal : String → ManagedCluster × Option Err) (error_text : Err → String) where
  abbrev object : String → ManagedCluster × Option Err
  object = object_of m access parse_url unmarshal error_text

  abbrev labelled : UserInfo → String → String → Trace → AdmissionResponse × Trace
  labelled = label_check m access parse_url unmarshal error_text

  abbrev pub Accepting : Bool → ManagedCluster → UserInfo → Trace → Type 0
  Accepting = MayAccept m access parse_url unmarshal error_text

  abbrev pub Moving : UserInfo → String → String → Trace → Type 0
  Moving = MayMove m access parse_url unmarshal error_text

  abbrev pub Urls : List ClientConfig → Type 0
  Urls = ValidUrls m access parse_url unmarshal error_text

  abbrev pub next : Bool → ManagedCluster → UserInfo → Trace → Trace
  next needed c user h =
      if needed then asked m access parse_url unmarshal error_text c user h else h

  abbrev updating : AdmissionRequest → Trace → AdmissionResponse × Trace
  updating = validate_update_request m access parse_url unmarshal error_text

  abbrev pub changed : AdmissionRequest → Bool
  changed request =
      xor (unmarshal request.object).0.hub_accepts_client
        (unmarshal request.old_object).0.hub_accepts_client

  -- What is left of the hook once both objects are valid and the user may change the acceptance.
  abbrev last_check : AdmissionRequest → Trace → AdmissionResponse × Trace
  last_check request h =
      labelled request.user_info (at (unmarshal request.old_object).0.labels cluster_set_label)
        (at (unmarshal request.object).0.labels cluster_set_label)
        (next (changed request) (unmarshal request.object).0 request.user_info h)

  pub updating_valid :
      (request : AdmissionRequest) (h : Trace)
      → (updating request h).0.allowed ≡ true
      → ((unmarshal request.old_object).1 ≡ none) × ((object request.object).1 ≡ none)
  unfolding validate_update_request
  updating_valid request h passed = elim (Option-cases (unmarshal request.old_object).1) [
    | inr (x, failed) ↦ absurd (ground arith)
    | inl e ↦ elim (Option-cases (object request.object).1) [
      | inl f ↦ (e, f)
      | inr (x, failed) ↦ absurd (ground arith)
    ]
  ]

  pub updating_accept :
      (request : AdmissionRequest) (h : Trace)
      → (updating request h).0.allowed ≡ true
      → (unmarshal request.old_object).1 ≡ none
      → (object request.object).1 ≡ none
      → Accepting (changed request) (unmarshal request.object).0 request.user_info h
        × (updating request h ≡ last_check request h)
  unfolding validate_update_request
  updating_accept request h passed old valid = elim (Bool-cases (changed request)) [
    | inr same ↦ (λ e. cc, rw (old, validate_update_request, valid, same) refl)
    | inl differ ↦
        let c = (unmarshal request.object).0 in
        (elim (Result-cases (access.create_review h (accept_review c.name request.user_info))) [
          | inr (x, failed) ↦ absurd (ground arith)
          | inl (true, passes) ↦
              (λ _. passes, rw (old, validate_update_request, valid, differ, passes) refl)
          | inl (false, refused) ↦ absurd (ground arith)
        ])
  ]

  updating_passes :
      (request : AdmissionRequest) (h : Trace)
      → (unmarshal request.old_object).1 ≡ none
      → (object request.object).1 ≡ none
      → Accepting (changed request) (unmarshal request.object).0 request.user_info h
      → updating request h ≡ last_check request h
  unfolding validate_update_request
  updating_passes request h old valid may = elim (Bool-cases (changed request)) [
    | inr same ↦ rw (old, validate_update_request, valid, same) refl
    | inl differ ↦ rw (old, validate_update_request, valid, differ, may differ) refl
  ]

  pub validate-updating :
      (request : AdmissionRequest) (h : Trace)
      → is_managed_cluster request ≡ true
      → request.operation ≡ Operation.update
      → validate m access parse_url unmarshal error_text request h ≡ updating request h
  unfolding validate
  validate-updating request h ours updated = rw (ours, updated) refl

  -- A request to update a cluster passes exactly when both objects decode and the new URLs are
  -- https, the user may accept clusters if the acceptance changes, and the user may take the
  -- cluster out of the old object's set and into the new one's, if the label changes.
  pub validate-update :
      (k : IsMachinery m) (request : AdmissionRequest) (h : Trace)
      → is_managed_cluster request ≡ true
      → request.operation ≡ Operation.update
      → let old = (unmarshal request.old_object).0 in
        let new = (unmarshal request.object).0 in
        ((validate m access parse_url unmarshal error_text request h).0.allowed ≡ true) ↔ (
          ((unmarshal request.old_object).1 ≡ none)
          × ((unmarshal request.object).1 ≡ none)
          × Urls new.client_configs
          × Accepting (changed request) new request.user_info h
          × Moving request.user_info
              (at old.labels cluster_set_label)
              (at new.labels cluster_set_label)
              (next (changed request) new request.user_info h))
  validate-update k request h ours updated =
      let old = (unmarshal request.old_object).0 in
      let new = (unmarshal request.object).0 in
      let valid_iff =
        validate_managed_cluster_obj-ValidUrls m access parse_url unmarshal error_text k
          request.object in
      let move_iff =
        allow_set_cluster_set_label-MayMove m access parse_url unmarshal error_text
          request.user_info (at old.labels cluster_set_label) (at new.labels cluster_set_label)
          (next (changed request) new request.user_info h) in
      let route = validate-updating request h ours updated in
      (
        λ passed.
            let p : (updating request h).0.allowed ≡ true = rw route at passed in
            let (was, valid) = updating_valid request h p in
            let (decoded, urls) = valid_iff.0 valid in
            let (may, rest) = updating_accept request h p was valid in
            (
              was,
              decoded,
              urls,
              may,
              move_iff.0 (subst (λ (x : AdmissionResponse × Trace). x.0.allowed ≡ true) rest p),
            ),
        λ (was, decoded, urls, may, move).
            rw (route, updating_passes request h was (valid_iff.1 (decoded, urls)) may)
              (move_iff.1 move),
      )
