-- ===== src/Publisher/Guard/Order.antt =====
-- The guard's answer does not depend on the order in which the hub lists its clusters, and agrees
-- with the gauge of matched clusters.
use mathlib.Core.List.{Perm, Permᴰ}
use mathlib.Core.Logic.{∥∥₁_elim}
use mathlib.Core.HLevel.{hedberg}
use locations.Prelude.{String, Bool, List, ◌∷◌, arith, ◌≡◌, refl, ◌∙◌}
use locations.Prelude.{Bool-cases, inl, inr, ◌==◌, eq_iff, if◌then◌else◌}
use locations.Prelude.Text.Sort.{sort, insert, insert_comm}
use locations.Publisher.Client.{Cluster}
use locations.Publisher.Hub.{RemovalDecision}
use locations.Publisher.Guard.{
  Claim, claim, is_labelled, is_unlabelled, names_where, removal_decision,
}

module _ (p : Claim → Bool) (name : String) where
  sorted_names : List Cluster → List String
  sorted_names items = sort (names_where p name items)

  sorted_names-cons :
      (item : Cluster) (items : List Cluster)
      → sorted_names (item ∷ items) ≡ (
          if p (claim name item) then insert item.name (sorted_names items) else sorted_names items)
  unfolding sorted_names names_where sort
  sorted_names-cons item items = ground arith

  sorted_names-perm : {xs ys : List Cluster} → Permᴰ xs ys → sorted_names xs ≡ sorted_names ys
  sorted_names-perm Permᴰ.nil = refl
  sorted_names-perm (Permᴰ.cons {a} {b} {l₁} {l₂} e h) =
      rw (sorted_names-cons a l₁, sorted_names-cons b l₂, e, sorted_names-perm h)
  sorted_names-perm (Permᴰ.swap {a} {b} {a' = c} {b' = d} {l} e f) =
      rw (e, f)
        (ground (
          arith,
          sorted_names-cons d (c ∷ l),
          sorted_names-cons c (d ∷ l),
          sorted_names-cons c l,
          sorted_names-cons d l,
          insert_comm c.name d.name (sorted_names l),
        ))
  sorted_names-perm (Permᴰ.trans h k) = sorted_names-perm h ∙ sorted_names-perm k

String-discrete : Discrete String
String-discrete s t = elim (Bool-cases (s == t)) [
  | inl same ↦ yes ((eq_iff s t).0 same)
  | inr other ↦ no (λ e. ground (arith, eq_iff s t))
]

String-set : IsSet String
String-set = hedberg String-discrete

RemovalDecision-set : IsSet RemovalDecision
RemovalDecision-set = hlevel String-set

-- The guard's decision, its reason and its message are the same for every order of the clusters.
pub removal_decision-perm :
    (name : String) {xs ys : List Cluster}
    → Perm xs ys
    → removal_decision name xs ≡ removal_decision name ys
unfolding removal_decision sorted_names
removal_decision-perm name h =
    ∥∥₁_elim h (RemovalDecision-set _ _)
      λ d. rw (sorted_names-perm is_labelled name d, sorted_names-perm is_unlabelled name d)
