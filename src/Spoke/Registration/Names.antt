-- ===== src/Spoke/Registration/Names.antt =====
-- The names in an agent's certificate.
use text.Mathlib.TextLemmas.{cons-append, nil-append}
use text.Mathlib.TextPositions.{starts_with-append}
use ocm_registration.Base.{
  String, ◌<>◌, false, List, [], ◌∷◌, Option, some, ◌≡◌, refl, ◌∙◌, ap, arith,
}
use ocm_registration.Base.Texts.{split, occurs, trim_prefix-append, split_whole, split-append}
use ocm_registration.Kube.{ok}
use ocm_registration.Hub.Csr.{subject_prefix}
use ocm_registration.ClientCert.Certificate.{Cert}
use ocm_registration.Spoke.Registration.{
  agent_subject, names_of, get_cluster_agent_names_from_certificate,
}

colon_append : (s : String) → ":" <> s ≡ String.◌∷◌ ":" s
colon_append s = cons-append ":" "" s ∙ ap (λ t. String.◌∷◌ ":" t) (nil-append s)

parts_of_names :
    (cluster_name agent_name : String)
    → occurs b':' cluster_name ≡ false
    → occurs b':' agent_name ≡ false
    → split b':' (cluster_name <> (":" <> agent_name)) ≡ cluster_name ∷ agent_name ∷ []
parts_of_names cluster_name agent_name p q = rw colon_append (
    split-append b':' cluster_name agent_name ":" p refl
    ∙ ap (λ rest. cluster_name ∷ rest) (split_whole b':' agent_name q))

-- The names that the agent puts in the subject of its request are read back from a certificate
-- chain that starts with a certificate for that subject, if neither name has a colon.
pub get_names-agent_subject :
    (parse_certs : String → Option (List Cert)) (cert_data cluster_name agent_name : String)
    (cert : Cert) (certs : List Cert)
    → occurs b':' cluster_name ≡ false
    → occurs b':' agent_name ≡ false
    → parse_certs cert_data ≡ some (cert ∷ certs)
    → cert.common_name ≡ (agent_subject cluster_name agent_name).common_name
    → get_cluster_agent_names_from_certificate parse_certs cert_data ≡ ok (cluster_name, agent_name)
unfolding get_cluster_agent_names_from_certificate names_of agent_subject
get_names-agent_subject parse_certs cert_data cluster_name agent_name cert certs p q parsed is =
    let rest = cluster_name <> (":" <> agent_name) in
    ground (
      arith,
      parsed,
      is,
      starts_with-append subject_prefix rest,
      trim_prefix-append rest subject_prefix,
      parts_of_names cluster_name agent_name p q,
    )
