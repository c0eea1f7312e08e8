-- ===== src/Readiness/Ready.antt =====
-- Which Locations are Ready.
use locations.Prelude.{
  String, Bool, true, false, Option, none, some, List, [], ◌∷◌, ◌≡◌, ◌≢◌, ◌↔◌, refl, sym, ◌∙◌,
}
use locations.Prelude.{if◌then◌else◌, ◌==◌, not, arith, eq_iff}
use locations.Prelude.Effect.{Except, ok, err, pure, raise, runs}
use locations.Prelude.GoMap.{index}
use locations.Prelude.Text.Trim.{trim_space}
use locations.Api.{
  Condition, Location, LocationClass, condition_true, condition_false, topology_city_code_key,
}
use locations.Class.Index.{class_names}
use locations.Class.Index.Names.{class_names_iff, class_names-single}
use locations.Readiness.Client.{Env, Error, M, Reconciler}
use locations.Readiness.Evaluate.{
  judge, evaluate_named, evaluate, ready_verdict, ready_condition, class_missing,
}

module _ (V : Env) (r : Reconciler) (l : Location) where
  -- An answer that reports the Location Ready.
  abbrev pub IsReady : Except (Error V.Failure) (Option Condition) → Type 0
  IsReady (ok (some condition)) = condition.status ≡ condition_true
  IsReady (ok none) = ⊥
  IsReady (err e) = ⊥

  -- The class backs the Location.
  abbrev pub IsBacking : Except V.Failure LocationClass → Type 0
  IsBacking (ok c) =
      (c.spec.controller_name ≡ r.controller_name)
      × (index topology_city_code_key l.spec.topology ≢ "")
  IsBacking (err e) = ⊥

  abbrev unclaimed : M V (Option Condition)
  unclaimed = pure none

  abbrev verdict : Condition → M V (Option Condition)
  verdict condition = pure (some condition)

  abbrev failure : Error V.Failure → M V (Option Condition)
  failure e = raise e

  claimed-IsReady :
      (claimed : Bool) (condition : Condition) (s : V.State)
      → IsReady ((if not claimed then unclaimed else verdict condition) s).0
        ↔ ((claimed ≡ true) × (condition.status ≡ condition_true))
  unfolding runs
  claimed-IsReady true condition s = (λ h. (refl, h), λ h. h.1)
  claimed-IsReady false condition s = (λ h. absurd h, λ h. absurd (false-ne-true h.0))
    where
      false-ne-true : false ≢ true
      false-ne-true e = cc

  status-if :
      (b : Bool) (m n : Condition)
      → (if b then m else n).status ≡ (if b then m.status else n.status)
  status-if true m n = refl
  status-if false m n = refl

  false-ne-true : condition_false ≢ condition_true
  false-ne-true e = cc

  text-if :
      (b : Bool) → ((if b then condition_false else condition_true) ≡ condition_true) ↔ (b ≡ false)
  text-if true = (λ h. absurd (false-ne-true h), λ h. cc)
  text-if false = (λ _. refl, λ _. refl)

  ready_verdict-status :
      (c : LocationClass)
      → ((ready_verdict V l c).status ≡ condition_true)
        ↔ (index topology_city_code_key l.spec.topology ≢ "")
  unfolding ready_verdict ready_condition
  ready_verdict-status c =
      let coded = index topology_city_code_key l.spec.topology in
      let text = text-if (coded == "") in
      let same = eq_iff coded "" in
      rw (status-if (coded == "") _ _)
        (λ h e. ground (arith, text.0 h, same, e), λ h. text.1 (ground (arith, h, same)))

  missing-IsReady :
      (gone : Bool) (condition : Condition) (e : Error V.Failure) (s : V.State)
      → condition.status ≡ condition_false
      → IsReady ((if gone then verdict condition else failure e) s).0
      → ⊥
  unfolding runs
  missing-IsReady true condition e s q h = false-ne-true (sym q ∙ h)
  missing-IsReady false condition e s q h = h

  judge-IsReady :
      (class_name : String) (answer : Except V.Failure LocationClass) (s : V.State)
      → IsReady (judge V r l class_name answer s).0 ↔ IsBacking answer
  unfolding runs class_missing ready_condition
  judge-IsReady class_name (ok c) s =
      let claimed =
        claimed-IsReady (c.spec.controller_name == r.controller_name) (ready_verdict V l c) s in
      let same = eq_iff c.spec.controller_name r.controller_name in
      let coded = ready_verdict-status c in
      (
        λ h. ground (arith, claimed.0 h, same, coded),
        λ h. claimed.1 (ground (arith, h, same, coded)),
      )
  judge-IsReady class_name (err e) s = (
    missing-IsReady (V.is_not_found e) (class_missing V l class_name)
        (Error.reading_class class_name e) s refl,
    λ h. absurd h,
  )

  -- The class that the reference names in this control plane backs the Location.
  abbrev pub IsBacked : V.State → Type 0
  IsBacked s =
      (trim_space l.spec.location_class_ref.project ≡ "")
      × (trim_space l.spec.location_class_ref.name ≢ "")
      × IsBacking (V.get_class (trim_space l.spec.location_class_ref.name) s).0

  abbrev IsNamed : List String → V.State → Type 0
  IsNamed [] s = ⊥
  IsNamed (class_name ∷ rest) s = IsBacking (V.get_class class_name s).0

  evaluate_named-IsReady :
      (names : List String) (s : V.State)
      → IsReady (evaluate_named V r l names s).0 ↔ IsNamed names s
  unfolding runs
  evaluate_named-IsReady [] s = (λ h. h, λ h. h)
  evaluate_named-IsReady (class_name ∷ rest) s =
      judge-IsReady class_name (V.get_class class_name s).0 (V.get_class class_name s).1

  IsNamed-iff-IsBacked :
      (names : List String) (s : V.State) → class_names l ≡ names → IsNamed names s ↔ IsBacked s
  IsNamed-iff-IsBacked [] s e = (
    λ h. absurd h,
    λ h. absurd (nil-ne-cons _ (sym e ∙ (class_names_iff l _).1 (h.0, refl, h.1))),
  )
    where
      nil-ne-cons : (n : String) → [] ≢ n ∷ []
      nil-ne-cons n h = cc
  IsNamed-iff-IsBacked (n ∷ rest) s e =
      let (here, same, named) = (class_names_iff l n).0 (class_names-single l n rest e) in
      rw same (λ h. (here, named, h), λ h. h.2)

  -- A Location is reported Ready exactly when its reference has a blank project, the class that the
  -- reference names, up to space, is there and names this controller, and the topology has a city
  -- code that is not empty.
  pub evaluate-IsReady_iff : (s : V.State) → IsReady (evaluate V r l s).0 ↔ IsBacked s
  unfolding evaluate
  evaluate-IsReady_iff s =
      let run = evaluate_named-IsReady (class_names l) s in
      let backed = IsNamed-iff-IsBacked (class_names l) s refl in
      (λ h. backed.0 (run.0 h), λ h. run.1 (backed.1 h))
