-- ===== src/Kube/Calls.antt =====
-- Go functions that call an API server and may return an error. The state is the trace of the calls
-- made so far, the newest first, and a call's answer may depend on the trace before it; so a client
-- answers in any way at all, and differently each time. What was called before an error stays.
use ocm_registration.Base.{String, Bool, true, false, List, [], ◌∷◌, ◌≡◌, ◌⊎◌, inl, inr, refl}
use ocm_registration.Kube.Objects.{
  ManagedCluster, ManagedClusterAddOn, RoleBinding, Role, Manifest, Csr, Secret, AccessReview,
  Lease, ManagedClusterSet,
}

pub data Err : Type 0 where
  not_found conflict unauthorized : Err
  forbidden : String → Err
  failure : String → Err
  wrapped : String → Err → Err

abbrev pub is_not_found : Err → Bool
is_not_found not_found = true
is_not_found _ = false

abbrev pub is_conflict : Err → Bool
is_conflict conflict = true
is_conflict _ = false

pub data Result {ℓ} (A : Type ℓ) : Type ℓ where
  ok : A → Result A
  err : Err → Result A

-- A call of a client method, a key that is put on the queue, or an event that is recorded (by its
-- reason).
pub data Call : Type 0 where
  get_cluster : String → Call
  create_cluster : ManagedCluster → Call
  update_cluster : ManagedCluster → Call
  update_cluster_status : ManagedCluster → Call
  get_addon : String → String → Call
  update_addon_status : ManagedClusterAddOn → Call
  delete_manifest : Manifest → Call
  apply_manifest : String → Call
  list_cluster_role_bindings : Call
  delete_cluster_role_binding : String → Call
  update_cluster_role_binding : RoleBinding → Call
  list_role_bindings : Call
  delete_role_binding : String → String → Call
  update_role_binding : RoleBinding → Call
  update_role : Role → Call
  update_approval : Csr → Call
  create_access_review : AccessReview → Call
  get_secret : String → String → Call
  create_secret : Secret → Call
  update_secret : Secret → Call
  delete_secret : String → String → Call
  get_csr : String → Call
  create_csr : Csr → Call
  get_lease : String → String → Call
  create_lease : Lease → Call
  update_lease : Lease → Call
  update_cluster_set_status : ManagedClusterSet → Call
  enqueue : String → Call
  event : String → Call

abbrev pub Trace : Type 0
Trace = List Call

abbrev pub Exec : Type 0 → Type 0
Exec A = Trace → Result A × Trace

abbrev pub pure : {A : Type 0} → A → Exec A
pure a h = (ok a, h)

abbrev pub raise : {A : Type 0} → Err → Exec A
raise e h = (err e, h)

-- A call of a client, which goes on the trace whatever the answer is.
abbrev pub request : {A : Type 0} → Call → (Trace → Result A) → Exec A
request c answer h = (answer h, c ∷ h)

-- A read of an informer's cache is no call.
abbrev pub read : {A : Type 0} → (Trace → Result A) → Exec A
read answer h = (answer h, h)

abbrev pub record_event : String → Exec (Unit {0})
record_event reason h = (ok tt, event reason ∷ h)

module _ {A B : Type 0} where
  abbrev continue : Result A → (A → Exec B) → Exec B
  continue (ok a) f h = f a h
  continue (err e) f h = (err e, h)

  infixl 5 ◌>>=◌ ◌>>◌
  abbrev pub ◌>>=◌ : Exec A → (A → Exec B) → Exec B
  ◌>>=◌ m f h = let (r, h') = m h in continue r f h'

  abbrev pub ◌>>◌ : Exec A → Exec B → Exec B
  m >> n = m >>= λ _. n

  -- `x, err := m`, where the code goes on and looks at `err` itself.
  abbrev pub handle : Exec A → (Result A → Exec B) → Exec B
  handle m f h = let (r, h') = m h in f r h'

-- The call was made when the trace was `g`.
abbrev pub At : Call → Trace → Trace → Type 0
At c g [] = ⊥
At c g (d ∷ h) = ((c ≡ d) × (g ≡ h)) ⊎ At c g h

-- Nothing is taken off the trace.
abbrev pub Grows : Trace → Trace → Type 0
Grows h h' = (c : Call) (g : Trace) → At c g h → At c g h'

-- What was added to the trace passes the test.
abbrev pub Only : (Call → Bool) → Trace → Trace → Type 0
Only p h h' = (c : Call) (g : Trace) → p c ≡ false → At c g h' → At c g h

-- To split on an answer and keep the equation.
pub Result-cases {ℓ} :
    {A : Type ℓ} (r : Result A) → ((a : A) × (r ≡ ok a)) ⊎ ((e : Err) × (r ≡ err e))
Result-cases (ok a) = inl (a, refl)
Result-cases (err e) = inr (e, refl)

-- The computation never makes the call.
abbrev pub Avoids : {A : Type 0} → Call → Exec A → Type 0
Avoids c m = (h g : Trace) → At c g (m h).1 → At c g h
