-- ===== src/Tests/WebhookRuns.antt =====
-- Runs of the admission hooks.
use ocm_registration.Base.{
  String, true, false, [], ◌∷◌, Option, none, some, ◌≡◌, refl, ◌↔◌, string_eq, nat_eq, ◌==◌,
  if◌then◌else◌,
}
use ocm_registration.Base.Dict.{at}
use ocm_registration.Kube.{Err, Trace, ManagedCluster, UserInfo}
use ocm_registration.Webhook.Admission.{Operation, AdmissionRequest, AdmissionResponse}
use ocm_registration.Webhook.Cluster.{
  cluster_set_label, validate, default_lease_duration_seconds_patch,
}
use ocm_registration.Webhook.Cluster.Updating as Updating
use ocm_registration.Webhook.Cluster.Updating.{validate-update}
use ocm_registration.Webhook.ClusterSetBinding.{Binding}
use ocm_registration.Protocol.Admitted.{
  Admitted, created, updated, HasUrls, WasAccepted, Admitted-Trusted,
}
use ocm_registration.Tests.Fixtures.{machinery, machinery_laws}
use ocm_registration.Tests.Apis.{cluster_with, allows_all, user_with, error_text}

abbrev parse_url : String → Option String
parse_url url = some "https"

abbrev cluster : ManagedCluster
cluster = record {
  name = "c1";
  labels = (cluster_set_label, "set1") ∷ [];
  finalizers = [];
  deleting = false;
  hub_accepts_client = true;
  lease_duration_seconds = 0;
  client_configs = record { url = "https://c1"; ca_bundle = "" } ∷ [];
  status = (cluster_with "c1" [] false true []).status;
}

-- The text "old" is the object without label and acceptance.
abbrev unmarshal : String → ManagedCluster × Option Err
unmarshal raw =
    if raw == "old" then (cluster_with "c1" [] false false [], none) else (cluster, none)

abbrev user : UserInfo
user = user_with "admin" []

abbrev request_of : String → Operation → AdmissionRequest
request_of resource operation = record {
  group = "cluster.open-cluster-management.io";
  resource = resource;
  operation = operation;
  object = "new";
  old_object = "old";
  user_info = user;
}

validate-update_example :
    ((validate machinery allows_all parse_url unmarshal error_text
        (request_of "managedclusters" Operation.update)
        []).0.allowed
      ≡ true)
    ↔ (((unmarshal "old").1 ≡ none)
        × ((unmarshal "new").1 ≡ none)
        × Updating.Urls machinery allows_all parse_url unmarshal error_text
            (unmarshal "new").0.client_configs
        × Updating.Accepting machinery allows_all parse_url unmarshal error_text
            (Updating.changed machinery allows_all parse_url unmarshal error_text
              (request_of "managedclusters" Operation.update))
            (unmarshal "new").0
            user
            []
        × Updating.Moving machinery allows_all parse_url unmarshal error_text user
            (at (unmarshal "old").0.labels cluster_set_label)
            (at (unmarshal "new").0.labels cluster_set_label)
            (Updating.next machinery allows_all parse_url unmarshal error_text
              (Updating.changed machinery allows_all parse_url unmarshal error_text
                (request_of "managedclusters" Operation.update))
              (unmarshal "new").0
              user
              []))
unfolding string_eq
validate-update_example =
    validate-update machinery allows_all parse_url unmarshal error_text machinery_laws
      (request_of "managedclusters" Operation.update) [] refl refl

abbrev apply_patch : String → ManagedCluster → ManagedCluster
apply_patch patch c =
    if patch == default_lease_duration_seconds_patch
    then record c { lease_duration_seconds = 60 }
    else c

abbrev unmarshal_binding : String → Binding × Option Err
unmarshal_binding raw = (record { name = "set1"; cluster_set = "set1" }, none)

abbrev creating : AdmissionRequest
creating = record (request_of "managedclusters" Operation.create) { object = "old" }

abbrev accepting : AdmissionRequest
accepting = request_of "managedclusters" Operation.update

abbrev hook : AdmissionRequest → Trace → AdmissionResponse × Trace
hook = validate machinery allows_all parse_url unmarshal error_text

-- A cluster that is created, and then accepted.
admitted :
    Admitted machinery machinery_laws allows_all parse_url unmarshal error_text
      (unmarshal "new").0
      (hook accepting (hook creating []).1).1
unfolding string_eq validate at
admitted =
    updated (unmarshal "old").0 accepting _ (created creating [] (refl, refl, refl))
      (refl, refl, refl) refl refl

Admitted-Trusted_example :
    HasUrls machinery machinery_laws allows_all parse_url unmarshal error_text (unmarshal "new").0
    × ((unmarshal "new").0.hub_accepts_client ≡ true
        → WasAccepted machinery machinery_laws allows_all parse_url unmarshal error_text
            (unmarshal "new").0
            (hook accepting (hook creating []).1).1)
Admitted-Trusted_example =
    Admitted-Trusted machinery machinery_laws allows_all parse_url unmarshal error_text
      (unmarshal "new").0 (hook accepting (hook creating []).1).1 admitted
