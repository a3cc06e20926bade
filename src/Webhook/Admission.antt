-- ===== src/Webhook/Admission.antt =====
-- Admission requests and responses. A raw object is its JSON text. Messages leave out the quotation
-- marks of Go's `%q`.
use ocm_registration.Base.{ℕ, String, Bool, true, false, Option, none, some, ◌∷◌}
use ocm_registration.Kube.{
  Trace, UserInfo, AccessReview, AccessApi, Err, Result, ok, err, create_access_review,
}

pub data Operation : Type 0 where
  create update delete connect : Operation

pub record AdmissionRequest : Type 0 where
  pub group : String
  pub resource : String
  pub operation : Operation
  pub object : String
  pub old_object : String
  pub user_info : UserInfo

pub record Status : Type 0 where
  pub code : ℕ
  pub reason : String
  pub message : String

-- The patch is a JSON patch.
pub record AdmissionResponse : Type 0 where
  pub allowed : Bool
  pub result : Option Status
  pub patch : Option String

abbrev pub bad_request : ℕ
bad_request = 400

abbrev forbidden_code : ℕ
forbidden_code = 403

abbrev pub accept_request : AdmissionResponse
accept_request = record { allowed = true; result = none; patch = none }

abbrev pub deny_request : ℕ → String → String → AdmissionResponse
deny_request code reason message = record {
  allowed = false;
  result = some (record { code = code; reason = reason; message = message });
  patch = none;
}

-- The answer to a review, as the hooks turn it into a response.
abbrev review_response : (Err → String) → String → Result Bool → AdmissionResponse
review_response error_text refusal (err e) = deny_request forbidden_code "Forbidden" (error_text e)
review_response error_text refusal (ok false) = deny_request forbidden_code "Forbidden" refusal
review_response error_text refusal (ok true) = accept_request

-- A SubjectAccessReview is created, and decides.
abbrev pub ask :
    AccessApi → (Err → String) → AccessReview → String → Trace → AdmissionResponse × Trace
ask access error_text review refusal h = (
  review_response error_text refusal (access.create_review h review),
  create_access_review review ∷ h,
)
