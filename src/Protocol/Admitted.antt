-- ===== src/Protocol/Admitted.antt =====
-- The clusters that the validating hook (pkg/webhook/cluster) lets into the server.
use ocm_registration.Base.{
  String, Bool, true, false, ◌∷◌, Option, ◌≡◌, refl, ◌∙◌, sym, ap, inl, inr, arith, subst,
  string_eq, nat_eq, All, Bool-cases, if◌then◌else◌,
}
use mathlib.Core.Bool.{xor}
use ocm_registration.Kube.{
  Err, ok, Trace, Call, At, create_access_review, Machinery, IsMachinery, AccessApi, UserInfo,
  ManagedCluster, ManagedClusterStatus, ClientConfig,
}
use ocm_registration.Helpers.Status.{is_valid_https_url}
use ocm_registration.Webhook.Admission.{Operation, AdmissionRequest, AdmissionResponse}
use ocm_registration.Webhook.Cluster.{
  accept_review, allow_set_cluster_set_label, is_managed_cluster, validate,
}
use ocm_registration.Webhook.Cluster.Validation.{
  label_check, validate_managed_cluster_obj-ValidUrls,
}
use ocm_registration.Webhook.Cluster.Creation.{creation_valid, creation_accept, validate-creation}
use ocm_registration.Webhook.Cluster.Updating.{
  updating_valid, updating_accept, validate-updating, changed,
}

xor-same : (new old : Bool) → xor new old ≡ false → new ≡ true → old ≡ true
unfolding xor
xor-same true true e p = refl
xor-same true false e p = absurd (ground (arith, e))
xor-same false old e p = absurd (ground (arith, p))

module _ (m : Machinery) (k : IsMachinery m) (access : AccessApi)
    (parse_url : String → Option String) (unmarshal : String → ManagedCluster × Option Err)
    (error_text : Err → String) where
  abbrev hook : AdmissionRequest → Trace → AdmissionResponse × Trace
  hook = validate m access parse_url unmarshal error_text

  abbrev pub new_object : AdmissionRequest → ManagedCluster
  new_object request = (unmarshal request.object).0

  -- The request is one for clusters with the operation, and the hook lets it pass.
  abbrev pub Passes : Operation → AdmissionRequest → Trace → Type 0
  Passes operation request h =
      (is_managed_cluster request ≡ true)
      × (request.operation ≡ operation)
      × ((hook request h).0.allowed ≡ true)

  -- The cluster that the server has after a trace. The server sends the cluster that it has as the old
  -- object, and lets no update change the name; a write of the status changes nothing else.
  pub data Admitted : ManagedCluster → Trace → Type 0 where
    created :
        (request : AdmissionRequest) (h : Trace)
        → Passes Operation.create request h
        → Admitted (new_object request) (hook request h).1
    updated :
        (c : ManagedCluster) (request : AdmissionRequest) (h : Trace)
        → Admitted c h
        → Passes Operation.update request h
        → (unmarshal request.old_object).0 ≡ c
        → (new_object request).name ≡ c.name
        → Admitted (new_object request) (hook request h).1
    status_written :
        (c : ManagedCluster) (h : Trace) (call : Call) (status : ManagedClusterStatus)
        → Admitted c h
        → Admitted (record c { status = status }) (call ∷ h)
    other : (c : ManagedCluster) (h : Trace) (call : Call) → Admitted c h → Admitted c (call ∷ h)

  label_check-Grows :
      (user : UserInfo) (original new : String) (h : Trace) (c : Call) (g : Trace)
      → At c g h
      → At c g (label_check m access parse_url unmarshal error_text user original new h).1
  unfolding allow_set_cluster_set_label
  label_check-Grows user original new h c g a = ground (arith, a)

  -- Someone was asked about in the trace, and was allowed to accept the cluster.
  abbrev pub WasAccepted : ManagedCluster → Trace → Type 0
  WasAccepted c h =
      (user : UserInfo) × (g : Trace) × At (create_access_review (accept_review c.name user)) g h
      × (access.create_review g (accept_review c.name user) ≡ ok true)

  abbrev pub HasUrls : ManagedCluster → Type 0
  HasUrls c = All (λ (x : ClientConfig). is_valid_https_url parse_url x.url ≡ true) c.client_configs

  -- The traces of the hook: the review for the acceptance, if one is needed, and those for the sets.
  abbrev Asks : AdmissionRequest → Bool → Trace → Type 0
  Asks request needed h =
      (original : String) × (new : String) × (hook request h
        ≡ label_check m access parse_url unmarshal error_text request.user_info original new (
            if needed
            then create_access_review (accept_review (new_object request).name request.user_info)
              ∷ h
            else h))

  asked-At :
      (request : AdmissionRequest) (needed : Bool) (h : Trace)
      → Asks request needed h
      → needed ≡ true
      → At
          (create_access_review (accept_review (new_object request).name request.user_info))
          h
          (hook request h).1
  asked-At request true h (original, new, e) p =
      subst
        (λ (x : AdmissionResponse × Trace).
          At (create_access_review (accept_review (new_object request).name request.user_info)) h
            x.1)
        (sym e) (label_check-Grows request.user_info original new _ _ h (inl (refl, refl)))
  asked-At request false h (original, new, e) p = absurd (ground (arith, p))

  hook-Grows :
      (request : AdmissionRequest) (needed : Bool) (h : Trace) (c : Call) (g : Trace)
      → Asks request needed h
      → At c g h
      → At c g (hook request h).1
  hook-Grows request true h c g (original, new, e) a =
      subst (λ (x : AdmissionResponse × Trace). At c g x.1) (sym e)
        (label_check-Grows request.user_info original new _ c g (inr a))
  hook-Grows request false h c g (original, new, e) a =
      subst (λ (x : AdmissionResponse × Trace). At c g x.1) (sym e)
        (label_check-Grows request.user_info original new h c g a)

  abbrev Trusted : ManagedCluster → Trace → Type 0
  Trusted c h = HasUrls c × (c.hub_accepts_client ≡ true → WasAccepted c h)

  created-Trusted :
      (request : AdmissionRequest) (h : Trace)
      → Passes Operation.create request h
      → Trusted (new_object request) (hook request h).1
  created-Trusted request h (ours, operation, passed) =
      let c = new_object request in
      let route =
        validate-creation m access parse_url unmarshal error_text request h ours operation in
      let p = subst (λ (x : AdmissionResponse × Trace). x.0.allowed ≡ true) route passed in
      let valid = creation_valid m access parse_url unmarshal error_text request h p in
      let (_, urls) =
        (validate_managed_cluster_obj-ValidUrls m access parse_url unmarshal error_text k
            request.object).0
          valid in
      let (may, rest) = creation_accept m access parse_url unmarshal error_text request h p valid in
      (
        urls,
        λ wants. (
          request.user_info,
          h,
          asked-At request c.hub_accepts_client h (_, _, route ∙ rest) wants,
          may wants,
        ),
      )

  -- What was allowed before the update still was.
  kept-WasAccepted :
      (c d : ManagedCluster) (request : AdmissionRequest) (needed : Bool) (h : Trace)
      → Asks request needed h
      → d.name ≡ c.name
      → WasAccepted c h
      → WasAccepted d (hook request h).1
  kept-WasAccepted c d request needed h asks named (user, g, a, yes_sir) =
      subst
        (λ n.
          (u : UserInfo) × (g : Trace) × At (create_access_review (accept_review n u)) g
            (hook request h).1
          × (access.create_review g (accept_review n u) ≡ ok true))
        (sym named) (user, g, hook-Grows request needed h _ g asks a, yes_sir)

  updated-Trusted :
      (c : ManagedCluster) (request : AdmissionRequest) (h : Trace)
      → Trusted c h
      → Passes Operation.update request h
      → (unmarshal request.old_object).0 ≡ c
      → (new_object request).name ≡ c.name
      → Trusted (new_object request) (hook request h).1
  updated-Trusted c request h (_, before) (ours, operation, passed) old named =
      let d = new_object request in
      let route =
        validate-updating m access parse_url unmarshal error_text request h ours operation in
      let p = subst (λ (x : AdmissionResponse × Trace). x.0.allowed ≡ true) route passed in
      let (was, valid) = updating_valid m access parse_url unmarshal error_text request h p in
      let (_, urls) =
        (validate_managed_cluster_obj-ValidUrls m access parse_url unmarshal error_text k
            request.object).0
          valid in
      let (may, rest) =
        updating_accept m access parse_url unmarshal error_text request h p was valid in
      let differs = changed m access parse_url unmarshal error_text request in
      let asks : Asks request differs h = (_, _, route ∙ rest) in
      (
        urls,
        λ wants. elim (Bool-cases differs) [
          | inl now ↦ (request.user_info, h, asked-At request differs h asks now, may now)
          | inr same ↦ kept-WasAccepted c d request differs h asks named (
              before (
                sym (ap (λ (x : ManagedCluster). x.hub_accepts_client) old)
                ∙ xor-same d.hub_accepts_client (unmarshal request.old_object).0.hub_accepts_client
                    same wants))
        ],
      )

  later-Trusted :
      (c : ManagedCluster) (h : Trace) (call : Call) → Trusted c h → Trusted c (call ∷ h)
  later-Trusted c h call (urls, before) =
      (urls, λ wants. let (user, g, a, yes_sir) = before wants in (user, g, inr a, yes_sir))

  -- Whatever is created, updated and written, every cluster on a server that asks the hook has only
  -- https URLs; and if the hub accepts it, then some user was reviewed before, under the cluster's
  -- name, and was allowed to accept it.
  pub Admitted-Trusted :
      (c : ManagedCluster) (h : Trace)
      → Admitted c h
      → HasUrls c × (c.hub_accepts_client ≡ true → WasAccepted c h)
  Admitted-Trusted _ _ (created request h passes) = created-Trusted request h passes
  Admitted-Trusted _ _ (updated c request h a passes old named) =
      updated-Trusted c request h (Admitted-Trusted c h a) passes old named
  Admitted-Trusted _ _ (status_written c h call status a) =
      later-Trusted c h call (Admitted-Trusted c h a)
  Admitted-Trusted _ _ (other c h call a) = later-Trusted c h call (Admitted-Trusted c h a)
