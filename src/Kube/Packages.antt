-- ===== src/Kube/Packages.antt =====
-- Functions of k8s.io/apimachinery and openshift/library-go that the code calls, and their
-- documented behaviour. A condition's observed generation is left out: the controllers never set
-- it.
use ocm_registration.Base.{String, Bool, true, false, Option, none, some, List, [], ◌∷◌, ◌≡◌, ◌≢◌}
use ocm_registration.Kube.Objects.{
  Condition, ConditionStatus, condition_true, condition_false, condition_unknown,
  ManagedClusterStatus, AddOnStatus,
}
use ocm_registration.Kube.Calls.{Err, Result, ok, err}

pub record Machinery : Type 0 where
  -- `meta.SetStatusCondition`, at the time of the call.
  pub set_status_condition : List Condition → Condition → List Condition
  pub find_status_condition : List Condition → String → Option Condition
  pub is_status_condition_true : List Condition → String → Bool
  -- `meta.IsStatusConditionPresentAndEqual`.
  pub is_status_condition : List Condition → String → ConditionStatus → Bool
  -- `equality.Semantic.DeepEqual`.
  pub same_cluster_status : ManagedClusterStatus → ManagedClusterStatus → Bool
  pub same_addon_status : AddOnStatus → AddOnStatus → Bool
  -- `NewMultiLineAggregate`; `none` is a nil error.
  pub new_multi_line_aggregate : List Err → Option Err

abbrev pub is_true_status : ConditionStatus → Bool
is_true_status condition_true = true
is_true_status _ = false

abbrev pub same_status : ConditionStatus → ConditionStatus → Bool
same_status condition_true condition_true = true
same_status condition_false condition_false = true
same_status condition_unknown condition_unknown = true
same_status _ _ = false

-- Up to the transition time.
pub record SameCondition (c d : Condition) : Type 0 where
  pub type : d.type ≡ c.type
  pub status : d.status ≡ c.status
  pub reason : d.reason ≡ c.reason
  pub message : d.message ≡ c.message

abbrev status_in : ConditionStatus → Option Condition → Bool
status_in status none = false
status_in status (some c) = same_status c.status status

abbrev true_in : Option Condition → Bool
true_in none = false
true_in (some c) = is_true_status c.status

pub record IsMachinery (m : Machinery) : Type 0 where
  pub find-set :
      (cs : List Condition) (c : Condition)
      → (d : Condition) × (m.find_status_condition (m.set_status_condition cs c) c.type ≡ some d)
        × SameCondition c d
  pub find-set_other :
      (cs : List Condition) (c : Condition) (t : String)
      → c.type ≢ t
      → m.find_status_condition (m.set_status_condition cs c) t ≡ m.find_status_condition cs t
  pub set-settled :
      (cs : List Condition) (c d : Condition)
      → m.find_status_condition cs c.type ≡ some d
      → SameCondition c d
      → m.set_status_condition cs c ≡ cs
  pub is_true-find :
      (cs : List Condition) (t : String)
      → m.is_status_condition_true cs t ≡ true_in (m.find_status_condition cs t)
  pub is_status-find :
      (cs : List Condition) (t : String) (status : ConditionStatus)
      → m.is_status_condition cs t status ≡ status_in status (m.find_status_condition cs t)
  pub same_cluster-refl : (s : ManagedClusterStatus) → m.same_cluster_status s s ≡ true
  pub same_addon-refl : (s : AddOnStatus) → m.same_addon_status s s ≡ true
  pub aggregate-nil : m.new_multi_line_aggregate [] ≡ none
  pub aggregate-cons : (e : Err) (es : List Err) → m.new_multi_line_aggregate (e ∷ es) ≢ none

-- `return NewMultiLineAggregate(errs)` of a function whose only result is an error.
abbrev pub result_of : Option Err → Result (Unit {0})
result_of none = ok tt
result_of (some e) = err e
