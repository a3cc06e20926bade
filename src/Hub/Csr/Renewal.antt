-- ===== src/Hub/Csr/Renewal.antt =====
-- Which certificate requests are renewals.
use text.Mathlib.TextPositions.{starts_with-append}
use ocm_registration.Base.{
  contains-keep_if, String, ◌<>◌, true, List, [], ◌∷◌, ◌≡◌, ◌≢◌, ◌↔◌, refl, ◌⊎◌, inr, ◌==◌,
  string_eq, nat_eq, arith, All, not, starts_with, length, keep_if, contains, if◌then◌else◌,
  eq-nil_of_length,
}
use ocm_registration.Hub.Csr.{
  subject_prefix, managed_clusters_group, Name, string_set, is_renewal_subject,
}

contains-string_set : (xs : List String) (a : String) → contains (string_set xs) a ≡ contains xs a
unfolding string_set
contains-string_set [] a = refl
contains-string_set (x ∷ xs) a = ground (arith, contains-string_set xs a, contains-string_set xs x)

abbrev other_orgs : String → List String → List String
other_orgs group xs = keep_if (λ org. not (org == group)) (string_set xs)

-- Every organization is the common group or the expected one.
abbrev pub Among : String → String → List String → Type 0
Among group expected = All (λ (o : String). (o ≡ group) ⊎ (o ≡ expected))

other_orgs-of_Among :
    (group expected : String) (xs : List String)
    → expected ≢ group
    → Among group expected xs
    → other_orgs group xs ≡ (if contains xs expected then expected ∷ [] else [])
unfolding string_set
other_orgs-of_Among group expected [] differ among = refl
other_orgs-of_Among group expected (x ∷ xs) differ among =
    ground (arith, other_orgs-of_Among group expected xs differ, contains-string_set xs x)

single : (xs : List String) (a : String) → length xs ≡ 1 → contains xs a ≡ true → xs ≡ a ∷ []
single [] a one held = absurd (omega arith)
single (x ∷ xs) a one held = ground (arith, eq-nil_of_length xs)

Among-of_contains :
    (group expected : String) (xs : List String)
    → ((o : String) → contains xs o ≡ true → (o ≡ group) ⊎ (o ≡ expected))
    → Among group expected xs
Among-of_contains group expected [] h = tt
Among-of_contains group expected (x ∷ xs) h =
    (h x (ground arith), Among-of_contains group expected xs (λ o held. h o (ground arith)))

Among-of_other_orgs :
    (group expected : String) (xs : List String)
    → other_orgs group xs ≡ expected ∷ []
    → Among group expected xs × (contains xs expected ≡ true) × (expected ≢ group)
Among-of_other_orgs group expected xs e =
    let law = λ (o : String). contains-keep_if (λ org. not (org == group)) (string_set xs) o in
    let set = contains-string_set xs in
    (
      Among-of_contains group expected xs (λ o held. ground (arith, law o, set o)),
      ground (arith, law expected, set expected),
      λ same. ground (arith, law expected, set expected),
    )

-- A request's subject is that of a renewal for a cluster exactly when its organizations are the
-- cluster's and perhaps the common group, its common name begins with the cluster's organization,
-- and the user who made the request has that common name.
pub is_renewal_subject_iff :
    (cluster_name username : String) (s : Name)
    → let expected = subject_prefix <> cluster_name in
      (is_renewal_subject cluster_name username s ≡ true) ↔ (
        Among managed_clusters_group expected s.organization
        × (contains s.organization expected ≡ true)
        × (expected ≢ managed_clusters_group)
        × (starts_with s.common_name expected ≡ true)
        × (username ≡ s.common_name))
unfolding is_renewal_subject
is_renewal_subject_iff cluster_name username s =
    let expected = subject_prefix <> cluster_name in
    let orgs = other_orgs managed_clusters_group s.organization in
    (
      λ passed.
          let (among, held, differ) =
            Among-of_other_orgs managed_clusters_group expected s.organization
              (single orgs expected (ground arith) (ground arith)) in
          (among, held, differ, ground arith, ground arith),
      λ (among, held, differ, named, own).
          ground (
            arith,
            other_orgs-of_Among managed_clusters_group expected s.organization differ among,
          ),
    )

-- Nothing separates the cluster's name from what follows: a user whose name goes on in any way
-- after it, such as the agent of a cluster whose name begins with this one's, has renewals for this
-- cluster.
pub is_renewal_subject_any_suffix :
    (cluster_name suffix : String)
    → subject_prefix <> cluster_name ≢ managed_clusters_group
    → let user = (subject_prefix <> cluster_name) <> suffix in
      is_renewal_subject cluster_name user
        (record { common_name = user; organization = (subject_prefix <> cluster_name) ∷ [] })
      ≡ true
is_renewal_subject_any_suffix cluster_name suffix differ =
    let expected = subject_prefix <> cluster_name in
    (is_renewal_subject_iff cluster_name (expected <> suffix)
        (record { common_name = expected <> suffix; organization = expected ∷ [] })).1
      ((inr refl, tt), ground arith, differ, starts_with-append expected suffix, refl)
