-- ===== src/Webhook/Cluster/Creation.antt =====
-- When a request to create a cluster passes.
use ocm_registration.Base.{
  String, Bool, true, false, List, Option, none, ◌≡◌, ◌↔◌, refl, inl, inr, string_eq, nat_eq, arith,
  if◌then◌else◌, subst, Bool-cases, Option-cases,
}
use ocm_registration.Base.Dict.{at}
use ocm_registration.Kube.{
  Err, Result-cases, Trace, Machinery, IsMachinery, AccessApi, UserInfo, ManagedCluster,
  ClientConfig,
}
use ocm_registration.Webhook.Admission.{Operation, AdmissionRequest, AdmissionResponse}
use ocm_registration.Webhook.Cluster.{
  cluster_set_label, accept_review, is_managed_cluster, validate_create_request, validate,
}
use ocm_registration.Webhook.Cluster.Validation.{
  ValidUrls, MayMove, MayAccept, asked, label_check, object_of,
  validate_managed_cluster_obj-ValidUrls, allow_set_cluster_set_label-MayMove,
}

module _ (m : Machinery) (access : AccessApi) (parse_url : String → Option String)
    (unmarshal : String → ManagedCluster × Option Err) (error_text : Err → String) where
  abbrev object : String → ManagedCluster × Option Err
  object = object_of m access parse_url unmarshal error_text

  abbrev labelled : UserInfo → String → String → Trace → AdmissionResponse × Trace
  labelled = label_check m access parse_url unmarshal error_text

  abbrev pub Accepting : Bool → ManagedCluster → UserInfo → Trace → Type 0
  Accepting = MayAccept m access parse_url unmarshal error_text

  abbrev pub Moving : UserInfo → String → String → Trace → Type 0
  Moving = MayMove m access parse_url unmarshal error_text

  abbrev pub Urls : List ClientConfig → Type 0
  Urls = ValidUrls m access parse_url unmarshal error_text

  abbrev pub next : Bool → ManagedCluster → UserInfo → Trace → Trace
  next needed c user h =
      if needed then asked m access parse_url unmarshal error_text c user h else h

  abbrev creation : AdmissionRequest → Trace → AdmissionResponse × Trace
  creation = validate_create_request m access parse_url unmarshal error_text

  pub creation_valid :
      (request : AdmissionRequest) (h : Trace)
      → (creation request h).0.allowed ≡ true
      → (object request.object).1 ≡ none
  unfolding validate_create_request
  creation_valid request h passed = elim (Option-cases (object request.object).1) [
    | inl e ↦ e
    | inr (x, failed) ↦ absurd (ground arith)
  ]

  pub creation_accept :
      (request : AdmissionRequest) (h : Trace)
      → (creation request h).0.allowed ≡ true
      → (object request.object).1 ≡ none
      → let c = (unmarshal request.object).0 in
        Accepting c.hub_accepts_client c request.user_info h
        × ((creation request h)
            ≡ labelled request.user_info ""
                (at c.labels cluster_set_label)
                (next c.hub_accepts_client c request.user_info h))
  unfolding validate_create_request
  creation_accept request h passed valid =
      elim (Bool-cases (unmarshal request.object).0.hub_accepts_client) [
        | inr plain ↦ (λ e. cc, rw (valid, plain) refl)
        | inl wants ↦
            let c = (unmarshal request.object).0 in
            (elim (Result-cases (access.create_review h (accept_review c.name request.user_info))) [
              | inr (x, failed) ↦ absurd (ground arith)
              | inl (true, yes_sir) ↦ (λ _. yes_sir, rw (valid, wants, yes_sir) refl)
              | inl (false, refused) ↦ absurd (ground arith)
            ])
      ]

  creation_passes :
      (request : AdmissionRequest) (h : Trace)
      → let c = (unmarshal request.object).0 in
        (object request.object).1 ≡ none
        → Accepting c.hub_accepts_client c request.user_info h
        → (creation request h)
          ≡ labelled request.user_info ""
              (at c.labels cluster_set_label)
              (next c.hub_accepts_client c request.user_info h)
  unfolding validate_create_request
  creation_passes request h valid may =
      elim (Bool-cases (unmarshal request.object).0.hub_accepts_client) [
        | inr plain ↦ rw (valid, plain) refl
        | inl wants ↦ rw (valid, wants, may wants) refl
      ]

  pub validate-creation :
      (request : AdmissionRequest) (h : Trace)
      → is_managed_cluster request ≡ true
      → request.operation ≡ Operation.create
      → validate m access parse_url unmarshal error_text request h ≡ creation request h
  unfolding validate
  validate-creation request h ours created = rw (ours, created) refl

  -- A request to create a cluster passes exactly when the object decodes and its URLs are https,
  -- the user may accept clusters if the object is accepted already, and the user may add a cluster
  -- to the set that the object's label names, if it names one.
  pub validate-create :
      (k : IsMachinery m) (request : AdmissionRequest) (h : Trace)
      → is_managed_cluster request ≡ true
      → request.operation ≡ Operation.create
      → let c = (unmarshal request.object).0 in
        ((validate m access parse_url unmarshal error_text request h).0.allowed ≡ true) ↔ (
          ((unmarshal request.object).1 ≡ none)
          × Urls c.client_configs
          × Accepting c.hub_accepts_client c request.user_info h
          × Moving request.user_info ""
              (at c.labels cluster_set_label)
              (next c.hub_accepts_client c request.user_info h))
  validate-create k request h ours created =
      let c = (unmarshal request.object).0 in
      let valid_iff =
        validate_managed_cluster_obj-ValidUrls m access parse_url unmarshal error_text k
          request.object in
      let move_iff =
        allow_set_cluster_set_label-MayMove m access parse_url unmarshal error_text
          request.user_info "" (at c.labels cluster_set_label)
          (next c.hub_accepts_client c request.user_info h) in
      let route = validate-creation request h ours created in
      (
        λ passed.
            let p : (creation request h).0.allowed ≡ true = rw route at passed in
            let valid = creation_valid request h p in
            let (decoded, urls) = valid_iff.0 valid in
            let (may, rest) = creation_accept request h p valid in
            (
              decoded,
              urls,
              may,
              move_iff.0 (subst (λ (x : AdmissionResponse × Trace). x.0.allowed ≡ true) rest p),
            ),
        λ (decoded, urls, may, move).
            rw (route, creation_passes request h (valid_iff.1 (decoded, urls)) may)
              (move_iff.1 move),
      )
