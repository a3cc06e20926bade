-- ===== src/ClientCert/Controller.antt =====
-- pkg/clientcert/cert_controller.go: creation and rotation of the client certificate. A private
-- key is its PEM text, and the calls of the key and certificate packages may fail. The random
-- number of `jitter` is `draw` / `scale`, in [0, 1), so that the threshold is the fraction
-- (4 * scale + draw) / (20 * scale).
pub mod Written
pub mod Requests
pub mod Sync
use ocm_registration.Base.{
  ℕ, String, Bool, true, false, List, [], ◌∷◌, Option, none, some, ◌==◌, string_eq, ◌+◌, ◌-◌, ◌*◌,
  ltb, leb, ◌&&◌, not, if◌then◌else◌,
}
use ocm_registration.Base.Dict.{Dict, insert, at}
use ocm_registration.Kube.{
  Err, not_found, failure, is_not_found, wrapped, Result, ok, err, Call, get_secret, create_secret,
  update_secret, get_csr, create_csr, event, Trace, Exec, pure, raise, request, read, record_event,
  ◌>>=◌, ◌>>◌, handle, Csr, Secret, SecretApi, CsrApi, UserInfo,
}
use ocm_registration.ClientCert.Certificate.{
  Cert, tls_key_file, tls_cert_file, is_certificate_valid, is_ok_true, get_cert_validity_period,
  is_csr_approved,
}

-- `ClientCertOption` and `CSROption`; of the subject, its common name.
pub record Options : Type 0 where
  pub secret_namespace : String
  pub secret_name : String
  pub additional_secret_data : Dict String
  pub object_name : String
  pub object_labels : Dict String
  pub subject : String
  pub signer_name : String

-- The fields that the controller writes.
pub record State : Type 0 where
  pub csr_name : String
  pub key_data : Option String

-- The packages `keyutil`, `certutil` and `tls`, at one call of `sync`.
pub record Crypto : Type 0 where
  pub parse_certs : String → Option (List Cert)
  pub make_private_key : Result String
  pub make_csr : String → String → Result String
  pub key_matches : String → String → Bool

abbrev pub reset : State
reset = record { csr_name = ""; key_data = none }

-- `for k, v := range additional { data[k] = v }`
unfoldable pub append : Dict String → Dict String → Dict String
append contents [] = contents
append contents ((k, v) ∷ rest) = append (insert k v contents) rest

-- `remaining.Seconds()/total.Seconds() > threshold` at the time `now`, for a certificate that
-- has not expired. If it ends before it starts, the quotient is not positive; if it ends when it
-- starts, the quotient is infinite, or not a number when nothing remains.
unfoldable pub has_enough_life : ℕ → ℕ → ℕ → ℕ → ℕ → Bool
has_enough_life now not_before not_after scale draw =
    if ltb not_after not_before
    then false
    else ltb ((4 * scale + draw) * (not_after - not_before)) (20 * scale * (not_after - now))

module _ (options : Options) (crypto : Crypto) (secrets : SecretApi) (csrs : CsrApi) where
  abbrev empty_secret : Secret
  empty_secret = record {
    namespace = options.secret_namespace;
    name = options.secret_name;
    resource_version = "";
    contents = [];
  }

  abbrev secret_or_empty : Result Secret → Exec Secret
  secret_or_empty (ok s) = pure s
  secret_or_empty (err e) =
      if is_not_found e then pure empty_secret else raise (wrapped "unable to get secret" e)

  -- A request that `Get` fails to return, for another reason than that it is not found, is the
  -- empty one: the error is overwritten.
  abbrev empty_csr : Csr
  empty_csr = record {
    name = "";
    labels = [];
    user = record { username = ""; uid = ""; groups = []; extra = [] };
    signer_name = "";
    request = "";
    conditions = [];
    certificate = "";
  }

  abbrev fallback_csr : Result Csr → Exec Csr
  fallback_csr (ok csr) = pure csr
  fallback_csr (err e) =
      if is_not_found e then raise (failure "unable to get csr") else pure empty_csr

  abbrev lister_csr : String → Result Csr → Exec Csr
  lister_csr csr_name (ok csr) = pure csr
  lister_csr csr_name (err e) =
      if is_not_found e
      then handle (request (get_csr csr_name) (λ h. csrs.get h csr_name)) fallback_csr
      else raise e

  -- The new contents of the secret, `none` while there is no certificate.
  abbrev data_of : Option String → Csr → Exec (Option (Dict String))
  data_of none csr = raise (failure "No private key found for certificate in csr")
  data_of (some key) csr =
      if crypto.key_matches csr.certificate key
      then pure (some (insert tls_key_file key (insert tls_cert_file csr.certificate [])))
      else raise (failure "Private key does not match with the certificate in csr")

  unfoldable pub data_from : Option String → Csr → Exec (Option (Dict String))
  unfolding is_csr_approved insert
  data_from key_data csr =
      if not (is_csr_approved csr.conditions)
      then pure none
      else if csr.certificate == ""
      then pure none
      else data_of key_data csr

  unfoldable pub sync_csr : State → Exec (Option (Dict String))
  unfolding data_from
  sync_csr s =
      if s.csr_name == ""
      then raise (failure "no ongoing csr")
      else handle (read (λ h. csrs.lister_get h s.csr_name)) (lister_csr s.csr_name)
        >>= data_from s.key_data

  unfoldable pub save_secret : Secret → Exec Secret
  save_secret secret =
      if secret.resource_version == ""
      then request (create_secret secret) (λ h. secrets.create h secret)
      else request (update_secret secret) (λ h. secrets.update h secret)

  -- Its usages, which are always the same three, are left out, and so are the DNS names, which
  -- `make_csr` may depend on.
  abbrev pub new_csr : String → Csr
  new_csr request = record {
    name = options.object_name;
    labels = options.object_labels;
    user = record { username = ""; uid = ""; groups = []; extra = [] };
    signer_name = options.signer_name;
    request = request;
    conditions = [];
    certificate = "";
  }

  -- The name of the created request.
  unfoldable pub create_csr_for : String → Exec String
  create_csr_for key = read (λ _. crypto.make_csr key options.subject) >>= λ csr_data.
      request (create_csr (new_csr csr_data)) (λ h. csrs.create h (new_csr csr_data)) >>= λ req.
      pure req.name

  abbrev pub has_valid_client_certificate : ℕ → Secret → Bool
  has_valid_client_certificate now secret = is_ok_true (
      is_certificate_valid crypto.parse_certs now (at secret.contents tls_cert_file)
        (some options.subject))

  abbrev rotate : ℕ → ℕ → ℕ → ℕ × ℕ → Exec Bool
  rotate now scale draw (not_before, not_after) =
      if has_enough_life now not_before not_after scale draw
      then pure false
      else record_event "CertificateRotationStarted" >> pure true

  -- Whether `sync` goes on to ask for a certificate.
  unfoldable pub needs_certificate : ℕ → ℕ → ℕ → Secret → Exec Bool
  unfolding is_certificate_valid get_cert_validity_period at has_enough_life
  needs_certificate now scale draw secret =
      if has_valid_client_certificate now secret
      then (read (λ _. get_cert_validity_period crypto.parse_certs secret.contents)
          >>= rotate now scale draw)
      else record_event "NoValidCertificateFound" >> pure true

  abbrev pub saved : State → Result Secret → Trace → Result (Unit {0}) × State × Trace
  saved s (ok _) h = (ok tt, reset, event "ClientCertificateCreated" ∷ h)
  saved s (err e) h = (err e, s, h)

  abbrev pub new_secret : Secret → Dict String → Secret
  new_secret secret contents = record {
    namespace = secret.namespace;
    name = secret.name;
    resource_version = secret.resource_version;
    contents = contents;
  }

  abbrev pub collected :
      State → Secret → Result (Option (Dict String)) → Trace → Result (Unit {0}) × State × Trace
  collected s secret (err e) h = (err e, reset, h)
  collected s secret (ok none) h = (ok tt, s, h)
  collected s secret (ok (some contents)) h =
      let (r, h') =
        save_secret (new_secret secret (append contents options.additional_secret_data)) h in
      saved s r h'

  -- The pending request, if there is one.
  unfoldable pub collect : State → Secret → Trace → Result (Unit {0}) × State × Trace
  unfolding sync_csr save_secret append
  collect s secret h = let (r, h') = sync_csr s h in collected s secret r h'

  abbrev pub created : String → Result String → Trace → Result (Unit {0}) × State × Trace
  created key (err e) h = (err e, reset, h)
  created key (ok name) h =
      (ok tt, record { csr_name = name; key_data = some key }, event "CSRCreated" ∷ h)

  abbrev pub with_key : State → Result String → Trace → Result (Unit {0}) × State × Trace
  with_key s (err e) h = (err e, record { csr_name = s.csr_name; key_data = none }, h)
  with_key s (ok key) h = let (r, h') = create_csr_for key h in created key r h'

  abbrev pub needed : State → Result Bool → Trace → Result (Unit {0}) × State × Trace
  needed s (err e) h = (err e, s, h)
  needed s (ok false) h = (ok tt, s, h)
  needed s (ok true) h = with_key s crypto.make_private_key h

  -- The rest of `sync`, when no request is pending.
  unfoldable pub request_new :
      ℕ → ℕ → ℕ → State → Secret → Trace → Result (Unit {0}) × State × Trace
  unfolding needs_certificate create_csr_for
  request_new now scale draw s secret h =
      let (r, h') = needs_certificate now scale draw secret h in needed s r h'

  abbrev sync_with : ℕ → ℕ → ℕ → State → Result Secret → Trace → Result (Unit {0}) × State × Trace
  sync_with now scale draw s (err e) h = (err e, s, h)
  sync_with now scale draw s (ok secret) h =
      if s.csr_name == "" then request_new now scale draw s secret h else collect s secret h

  unfoldable pub get_client_secret : Exec Secret
  get_client_secret =
      handle
        (request (get_secret options.secret_namespace options.secret_name)
          (λ h. secrets.get h options.secret_namespace options.secret_name))
        secret_or_empty

  unfoldable pub sync : ℕ → ℕ → ℕ → State → Trace → Result (Unit {0}) × State × Trace
  unfolding get_client_secret collect request_new
  sync now scale draw s h = let (r, h') = get_client_secret h in sync_with now scale draw s r h'
