-- ===== src/ClientCert/Certificate.antt =====
-- pkg/clientcert/certificate.go. `parse_certs` stands for `ParseCertsPEM`, `none` being its error;
-- a time is a number of seconds. The tests of a secret take its data, and of the subject its common
-- name.
pub mod Laws
use ocm_registration.Base.{
  ℕ, String, Bool, true, false, List, [], ◌∷◌, Option, none, some, ◌==◌, string_eq, not, ltb, any,
  if◌then◌else◌,
}
use ocm_registration.Base.Dict.{Dict, lookup}
use ocm_registration.Kube.{
  Err, Result, ok, err, failure, CsrCondition, CsrConditionType, certificate_approved,
  certificate_denied, certificate_failed,
}

abbrev pub kubeconfig_file : String
kubeconfig_file = "kubeconfig"

abbrev pub tls_key_file : String
tls_key_file = "tls.key"

abbrev pub tls_cert_file : String
tls_cert_file = "tls.crt"

pub record Cert : Type 0 where
  pub common_name : String
  pub not_before : ℕ
  pub not_after : ℕ

-- The loops over a chain that is not empty.
abbrev pub chain_valid : ℕ → Option String → List Cert → Result Bool
chain_valid now subject [] = err (failure "No cert found in certificate")
chain_valid now subject (c ∷ cs) =
    if any (λ (x : Cert). ltb x.not_after now) (c ∷ cs) then ok false else elim subject [
      | none ↦ ok true
      | some common_name ↦ ok (any (λ (x : Cert). x.common_name == common_name) (c ∷ cs))
    ]

-- One round of the loop in `getCertValidityPeriod`.
unfoldable pub narrow : ℕ × ℕ → List Cert → ℕ × ℕ
narrow (not_before, not_after) [] = (not_before, not_after)
narrow (not_before, not_after) (c ∷ cs) =
    narrow
      (
        (if ltb not_before c.not_before then c.not_before else not_before),
        (if ltb c.not_after not_after then c.not_after else not_after),
      )
      cs

abbrev pub chain_period : List Cert → Result (ℕ × ℕ)
chain_period [] = err (failure "No cert found in certificate")
chain_period (c ∷ cs) = ok (narrow (c.not_before, c.not_after) cs)

abbrev pub is_ok_true : Result Bool → Bool
is_ok_true (ok b) = b
is_ok_true (err e) = false

module _ (parse_certs : String → Option (List Cert)) where
  unfoldable pub is_certificate_valid : ℕ → String → Option String → Result Bool
  is_certificate_valid now cert_data subject = elim (parse_certs cert_data) [
    | none ↦ err (failure "unable to parse certificate")
    | some certs ↦ chain_valid now subject certs
  ]

  unfoldable pub has_valid_hub_kubeconfig : ℕ → Dict String → Option String → Bool
  unfolding is_certificate_valid lookup
  has_valid_hub_kubeconfig now contents subject = elim (lookup kubeconfig_file contents) [
    | none ↦ false
    | some _ ↦ elim (lookup tls_key_file contents) [
      | none ↦ false
      | some _ ↦ elim (lookup tls_cert_file contents) [
        | none ↦ false
        | some cert_data ↦ is_ok_true (is_certificate_valid now cert_data subject)
      ]
    ]
  ]

  -- The latest start and the earliest end of the chain in the secret.
  unfoldable pub get_cert_validity_period : Dict String → Result (ℕ × ℕ)
  unfolding narrow lookup
  get_cert_validity_period contents = elim (lookup tls_cert_file contents) [
    | none ↦ err (failure "no client certificate found in secret")
    | some cert_data ↦ elim (parse_certs cert_data) [
      | none ↦ err (failure "unable to parse TLS certificates")
      | some certs ↦ chain_period certs
    ]
  ]

abbrev pub is_denied : CsrConditionType → Bool
is_denied certificate_denied = true
is_denied _ = false

abbrev pub is_approved : CsrConditionType → Bool
is_approved certificate_approved = true
is_approved _ = false

-- The loop of `isCSRApproved`, with its variable `approved`.
unfoldable pub approved_from : Bool → List CsrCondition → Bool
approved_from approved [] = approved
approved_from approved (c ∷ cs) =
    let rest = approved_from (if is_approved c.type then true else approved) cs in
    if is_denied c.type then false else rest

unfoldable pub is_csr_approved : List CsrCondition → Bool
unfolding approved_from
is_csr_approved = approved_from false
