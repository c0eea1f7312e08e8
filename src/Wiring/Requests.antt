-- ===== src/Wiring/Requests.antt =====
-- Which names the handlers of the watches return.
use locations.Prelude.{
  String, Bool, true, false, not, List, [], ◌∷◌, ◌++◌, ◌≡◌, ◌≢◌, ◌↔◌, refl, ap, ◌==◌, eq_iff,
  if◌then◌else◌, inl, inr, ◌⊎◌, Bool-cases,
}
use locations.Prelude.Text.Trim.{trim_space}
use locations.Prelude.Text.Prefix.{trim_prefix}
use locations.Prelude.Trace.{Some}
use locations.Api.{Location}
use locations.Class.Index.{class_names, requests_for, enqueue_local_class, Object}
use locations.Publisher.Policy.{enqueue_policy_owner, location_propagation_policy_name}
use locations.Publisher.Policy.Owner.{enqueue_policy_owner_iff}
use locations.Readiness.Report.{requests_of, requests_naming}

pub Some-++ : {A : Type 0} (P : A → Type 0) (l m : List A) → Some P (l ++ m) ↔ (Some P l ⊎ Some P m)
Some-++ P l m = (split l, join l)
  where
    split : (l : List _) → Some P (l ++ m) → Some P l ⊎ Some P m
    split [] h = inr h
    split (x ∷ l) (inl p) = inl (inl p)
    split (x ∷ l) (inr h) = elim (split l h) [ inl a ↦ inl (inr a) | inr b ↦ inr b ]

    join : (l : List _) → Some P l ⊎ Some P m → Some P (l ++ m)
    join [] (inl h) = absurd h
    join [] (inr h) = h
    join (x ∷ l) (inl (inl p)) = inl p
    join (x ∷ l) (inl (inr h)) = inr (join l (inl h))
    join (x ∷ l) (inr h) = inr (join l (inr h))

-- A Location is filed under one class at most.
class_names-cases :
    (l : Location) → (class_names l ≡ []) ⊎ ((m : String) × (class_names l ≡ m ∷ []))
unfolding class_names
class_names-cases l = elim (Bool-cases (trim_space l.spec.location_class_ref.project == "")) [
  | inr e ↦ inl (rw e refl)
  | inl e ↦ elim (Bool-cases (trim_space l.spec.location_class_ref.name == "")) [
    | inl f ↦ inl (rw (e, f) refl)
    | inr f ↦ inr (trim_space l.spec.location_class_ref.name, rw (e, f) refl)
  ]
]

one_iff : (m n : String) → Some (λ k. k ≡ n) (m ∷ []) ↔ (m ∷ [] ≡ n ∷ [])
one_iff m n = (there, back)
  where
    there : Some (λ k. k ≡ n) (m ∷ []) → m ∷ [] ≡ n ∷ []
    there (inr h) = absurd h
    there (inl e) = ap (λ k. k ∷ []) e

    back : m ∷ [] ≡ n ∷ [] → Some (λ k. k ≡ n) (m ∷ [])
    back q = inl cc

none_iff : (n : String) → Some (λ k. k ≡ n) [] ↔ ([] ≡ n ∷ [])
none_iff n = (λ h. absurd h, λ q. absurd (nil_ne q))
  where
    nil_ne : [] ≢ n ∷ []
    nil_ne q = cc

requests_for-same : (names : List String) → requests_for names ≡ names
requests_for-same [] = refl
requests_for-same (n ∷ names) = ap (λ r. n ∷ r) (requests_for-same names)

-- A list of one name at most.
abbrev IsSingle : List String → Type 0
IsSingle names = (names ≡ []) ⊎ ((m : String) × (names ≡ m ∷ []))

single-Some :
    (names : List String) (n : String) → IsSingle names → Some (λ k. k ≡ n) names ↔ (names ≡ n ∷ [])
single-Some names n single = elim single [
  | inl e ↦ rw e (none_iff n)
  | inr (m, e) ↦ rw e (one_iff m n)
]

class_names-Some :
    (l : Location) (n : String) → Some (λ k. k ≡ n) (class_names l) ↔ (class_names l ≡ n ∷ [])
class_names-Some l n = single-Some (class_names l) n (class_names-cases l)

pub policy_owner-Some :
    (policy n : String)
    → Some (λ k. k ≡ n) (enqueue_policy_owner policy)
      ↔ (policy ≡ location_propagation_policy_name n)
unfolding enqueue_policy_owner
policy_owner-Some policy n = (
  λ h. (enqueue_policy_owner_iff policy n).0 ((by_single n).0 h),
  λ e. (by_single n).1 ((enqueue_policy_owner_iff policy n).1 e),
)
  where
    single : IsSingle (enqueue_policy_owner policy)
    single = elim (Bool-cases (trim_prefix policy "location-" == policy)) [
      | inl e ↦ inl (rw e refl)
      | inr e ↦ inr (trim_prefix policy "location-", rw e refl)
    ]

    by_single :
        (n : String)
        → Some (λ k. k ≡ n) (enqueue_policy_owner policy) ↔ (enqueue_policy_owner policy ≡ n ∷ [])
    by_single n = single-Some (enqueue_policy_owner policy) n single

pub local_class-Some :
    (l : Location) (n : String)
    → Some (λ k. k ≡ n) (enqueue_local_class (Object.location l)) ↔ (class_names l ≡ n ∷ [])
unfolding enqueue_local_class
local_class-Some l n = rw (requests_for-same (class_names l)) (class_names-Some l n)

-- The requests with one more in front, by a test.
picked :
    (b : Bool) (place n : String) (rest : List String)
    → Some (λ k. k ≡ n) (if not b then rest else place ∷ rest)
    → ((b ≡ true) × (place ≡ n)) ⊎ Some (λ k. k ≡ n) rest
picked false place n rest h = inr h
picked true place n rest (inl e) = inl (refl, e)
picked true place n rest (inr h) = inr h

kept :
    (b : Bool) (place n : String) (rest : List String)
    → Some (λ k. k ≡ n) rest
    → Some (λ k. k ≡ n) (if not b then rest else place ∷ rest)
kept false place n rest h = h
kept true place n rest h = inr h

requests_of-Some :
    (class_name place n : String) (names : List String)
    → Some (λ k. k ≡ n) (requests_of class_name place names)
      ↔ (Some (λ k. k ≡ class_name) names × (place ≡ n))
requests_of-Some class_name place n names = (there names, λ both. back names both.0 both.1)
  where
    there :
        (names : List String)
        → Some (λ k. k ≡ n) (requests_of class_name place names)
        → Some (λ k. k ≡ class_name) names × (place ≡ n)
    there [] h = absurd h
    there (m ∷ names) h =
        elim (picked (m == class_name) place n (requests_of class_name place names) h) [
          | inl (e, q) ↦ (inl ((eq_iff m class_name).0 e), q)
          | inr rest ↦ let (a, q) = there names rest in (inr a, q)
        ]

    back :
        (names : List String)
        → Some (λ k. k ≡ class_name) names
        → place ≡ n
        → Some (λ k. k ≡ n) (requests_of class_name place names)
    back [] h q = absurd h
    back (m ∷ names) (inl e) q = rw ((eq_iff m class_name).1 e) (inl q)
    back (m ∷ names) (inr h) q =
        kept (m == class_name) place n (requests_of class_name place names) (back names h q)

pub requests_naming-Some :
    (class_name n : String) (ls : List Location)
    → Some (λ k. k ≡ n) (requests_naming class_name ls)
      ↔ Some (λ l. (class_names l ≡ class_name ∷ []) × (l.meta.name ≡ n)) ls
unfolding requests_naming
requests_naming-Some class_name n ls = (there ls, back ls)
  where
    there :
        (ls : List Location)
        → Some (λ k. k ≡ n) (requests_naming class_name ls)
        → Some (λ l. (class_names l ≡ class_name ∷ []) × (l.meta.name ≡ n)) ls
    there [] h = absurd h
    there (l ∷ ls) h =
        elim ((Some-++ (λ k. k ≡ n) (requests_of class_name l.meta.name (class_names l)) _).0 h) [
          | inl a ↦
              let (f, q) = (requests_of-Some class_name l.meta.name n (class_names l)).0 a in
              inl ((class_names-Some l class_name).0 f, q)
          | inr b ↦ inr (there ls b)
        ]

    back :
        (ls : List Location)
        → Some (λ l. (class_names l ≡ class_name ∷ []) × (l.meta.name ≡ n)) ls
        → Some (λ k. k ≡ n) (requests_naming class_name ls)
    back [] h = absurd h
    back (l ∷ ls) (inl (f, q)) =
        (Some-++ (λ k. k ≡ n) (requests_of class_name l.meta.name (class_names l)) _).1 (
          inl (
            (requests_of-Some class_name l.meta.name n (class_names l)).1
              ((class_names-Some l class_name).1 f, q)))
    back (l ∷ ls) (inr h) =
        (Some-++ (λ k. k ≡ n) (requests_of class_name l.meta.name (class_names l)) _).1
          (inr (back ls h))
