-- ===== src/Tests/Fixtures.antt =====
-- Concrete instances of what the code takes from other packages, with their documented laws.
use ocm_registration.Base.{
  String, Bool, true, false, List, [], ◌∷◌, Option, none, some, ◌≡◌, ◌≢◌, refl, arith, ◌==◌,
  string_eq, nat_eq, ◌&&◌, if◌then◌else◌, subst,
}
use ocm_registration.Kube.{
  Condition, ConditionStatus, condition_true, condition_false, condition_unknown,
  ManagedClusterStatus, ClusterClaim, same_status, Err, wrapped, Machinery, SameCondition,
  IsMachinery, is_true_status, Exec,
}
use ocm_registration.Protocol.Server.{Compares, ComparesConditions}
use ocm_registration.Helpers.Status.{attempts, IsRetry}

-- A changed status takes the time 1 of the call.
abbrev changed : Condition → Condition → Condition
changed d c = record {
  type = d.type;
  status = c.status;
  reason = c.reason;
  message = c.message;
  last_transition_time = if same_status d.status c.status then d.last_transition_time else 1;
}

abbrev set_condition : List Condition → Condition → List Condition
set_condition [] c = c ∷ []
set_condition (d ∷ ds) c =
    let rest = set_condition ds c in if d.type == c.type then changed d c ∷ ds else d ∷ rest

abbrev find_condition : List Condition → String → Option Condition
find_condition [] t = none
find_condition (d ∷ ds) t = if d.type == t then some d else find_condition ds t

abbrev is_condition_true : Option Condition → Bool
is_condition_true none = false
is_condition_true (some c) = is_true_status c.status

abbrev is_condition : ConditionStatus → Option Condition → Bool
is_condition status none = false
is_condition status (some c) = same_status c.status status

abbrev pub same_conditions : List Condition → List Condition → Bool
same_conditions [] [] = true
same_conditions [] (d ∷ ds) = false
same_conditions (c ∷ cs) [] = false
same_conditions (c ∷ cs) (d ∷ ds) =
    c.type == d.type
    && same_status c.status d.status
    && c.reason == d.reason
    && c.message == d.message
    && c.last_transition_time == d.last_transition_time
    && same_conditions cs ds

abbrev pub same_claims : List ClusterClaim → List ClusterClaim → Bool
same_claims [] [] = true
same_claims [] (d ∷ ds) = false
same_claims (c ∷ cs) [] = false
same_claims (c ∷ cs) (d ∷ ds) = c.name == d.name && c.value == d.value && same_claims cs ds

abbrev pub same_cluster_status : ManagedClusterStatus → ManagedClusterStatus → Bool
same_cluster_status a b =
    same_conditions a.conditions b.conditions && same_claims a.cluster_claims b.cluster_claims

abbrev aggregate : List Err → Option Err
aggregate [] = none
aggregate (e ∷ es) = some (wrapped "multiple" e)

abbrev pub machinery : Machinery
machinery = record {
  set_status_condition = set_condition;
  find_status_condition = find_condition;
  is_status_condition_true = λ cs t. is_condition_true (find_condition cs t);
  is_status_condition = λ cs t status. is_condition status (find_condition cs t);
  same_cluster_status = same_cluster_status;
  same_addon_status = λ a b. same_conditions a.conditions b.conditions;
  new_multi_line_aggregate = aggregate;
}

same_status_refl : (s : ConditionStatus) → same_status s s ≡ true
same_status_refl condition_true = refl
same_status_refl condition_false = refl
same_status_refl condition_unknown = refl

changed_same : (x c : Condition) → SameCondition c x → changed x c ≡ x
changed_same x c s =
    let p : same_status x.status c.status ≡ true =
      subst (λ t. same_status x.status t ≡ true) s.status (same_status_refl x.status) in
    ground (arith, p, s.status, s.reason, s.message, s.type)

find-set_condition :
    (cs : List Condition) (c : Condition)
    → (d : Condition) × (find_condition (set_condition cs c) c.type ≡ some d) × SameCondition c d
find-set_condition [] c =
    (c, ground arith, record { type = refl; status = refl; reason = refl; message = refl })
find-set_condition (x ∷ xs) c =
    let (d, found, same) = find-set_condition xs c in
    elim (string_eq.dec x.type c.type) [
      | yes p ↦ (
        changed x c,
        ground (arith, p),
        record { type = p; status = refl; reason = refl; message = refl },
      )
      | no p ↦ (d, ground (arith, p, found), same)
    ]

find-set_condition_other :
    (cs : List Condition) (c : Condition) (t : String)
    → c.type ≢ t
    → find_condition (set_condition cs c) t ≡ find_condition cs t
find-set_condition_other [] c t p = ground (arith, p)
find-set_condition_other (x ∷ xs) c t p = ground (arith, p, find-set_condition_other xs c t p)

set_condition-settled :
    (cs : List Condition) (c d : Condition)
    → find_condition cs c.type ≡ some d
    → SameCondition c d
    → set_condition cs c ≡ cs
set_condition-settled [] c d e s = absurd (ground (arith, e))
set_condition-settled (x ∷ xs) c d e s =
    ground (arith, e, changed_same x c, set_condition-settled xs c d, s)

same_conditions_refl : (cs : List Condition) → same_conditions cs cs ≡ true
same_conditions_refl [] = refl
same_conditions_refl (c ∷ cs) = ground (arith, same_status_refl c.status, same_conditions_refl cs)

same_claims_refl : (cs : List ClusterClaim) → same_claims cs cs ≡ true
same_claims_refl [] = refl
same_claims_refl (c ∷ cs) = ground (arith, same_claims_refl cs)

pub machinery_laws : IsMachinery machinery
machinery_laws = record {
  find-set = find-set_condition;
  find-set_other = find-set_condition_other;
  set-settled = set_condition-settled;
  is_true-find = λ cs t.
      elim (find_condition cs t)
        as (λ o.
          is_condition_true o ≡ (elim o [ none ↦ false | some c ↦ is_true_status c.status ])) [
            | none ↦ refl
            | some c ↦ refl
          ];
  is_status-find = λ cs t status.
      elim (find_condition cs t)
        as (λ o.
          is_condition status o
          ≡ (elim o [ none ↦ false | some c ↦ same_status c.status status ])) [
            | none ↦ refl
            | some c ↦ refl
          ];
  same_cluster-refl =
      λ s. ground (arith, same_conditions_refl s.conditions, same_claims_refl s.cluster_claims);
  same_addon-refl = λ s. same_conditions_refl s.conditions;
  aggregate-nil = refl;
  aggregate-cons = λ e es p. absurd (ground (arith, p));
}

abbrev pub retry : {A : Type 0} → Exec A → Exec A
retry = attempts 3

abbrev pub retry_is_retry : {A : Type 0} → IsRetry {A = A} retry
retry_is_retry = record { more = 3; retry_lem = λ m h. refl }

status_of_same : (s t : ConditionStatus) → same_status s t ≡ true → s ≡ t
status_of_same condition_true condition_true p = refl
status_of_same condition_false condition_false p = refl
status_of_same condition_unknown condition_unknown p = refl
status_of_same condition_true condition_false p = absurd (ground (arith, p))
status_of_same condition_true condition_unknown p = absurd (ground (arith, p))
status_of_same condition_false condition_true p = absurd (ground (arith, p))
status_of_same condition_false condition_unknown p = absurd (ground (arith, p))
status_of_same condition_unknown condition_true p = absurd (ground (arith, p))
status_of_same condition_unknown condition_false p = absurd (ground (arith, p))

conditions_of_same : (cs ds : List Condition) → same_conditions cs ds ≡ true → cs ≡ ds
conditions_of_same [] [] p = refl
conditions_of_same [] (d ∷ ds) p = absurd (ground (arith, p))
conditions_of_same (c ∷ cs) [] p = absurd (ground (arith, p))
conditions_of_same (c ∷ cs) (d ∷ ds) p =
    ground (arith, p, status_of_same c.status d.status, conditions_of_same cs ds)

claims_of_same : (cs ds : List ClusterClaim) → same_claims cs ds ≡ true → cs ≡ ds
claims_of_same [] [] p = refl
claims_of_same [] (d ∷ ds) p = absurd (ground (arith, p))
claims_of_same (c ∷ cs) [] p = absurd (ground (arith, p))
claims_of_same (c ∷ cs) (d ∷ ds) p = ground (arith, p, claims_of_same cs ds)

pub machinery_compares : ComparesConditions machinery
machinery_compares a b p = conditions_of_same a.conditions b.conditions (ground (arith, p))

pub machinery_claims : Compares machinery (λ s. s.cluster_claims)
machinery_claims a b p = claims_of_same a.cluster_claims b.cluster_claims (ground (arith, p))
