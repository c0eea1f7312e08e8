-- ===== src/Publisher/Writing/Copies.antt =====
-- Publishing: every copy, policy and patch that it writes is justified by what was read.
use locations.Prelude.{String, false, Option, none, some, ◌∷◌, arith}
use locations.Prelude.{◌≡◌, ◌≢◌, refl, inl, inr, ◌==◌, eq_iff}
use locations.Prelude.Effect.{Except, ok, err}
use locations.Prelude.GoMap.{index, contains}
use locations.Prelude.Trace.{
  Emits, weaken-Emits, if-Traced, Some, Traced, bind-Traced, pure-Traced, raise-Traced,
  query-bind-Traced, request-Traced, note-Traced, frame, Emits-Traced,
}
use locations.Api.{Time, Location, ServingLocation}
use locations.Publisher.Client.{Env, Call, M, Reconciler}
use locations.Publisher.Ownership.{location_removal_blocked_annotation}
use locations.Publisher.Policy.{apply_propagation_policy}
use locations.Publisher.Hub.{
  read_published, read_answer, record_blocked, clear_blocked, RemovalDecision, blocked_text,
}
use locations.Publisher.Publish.{
  trimmed_city_code, is_unowned, write_copy, publish_owned, publish_with_city, publish,
}
use locations.Publisher.Removal.{retain_copy}
use locations.Publisher.Writing.{
  Calls, IsFound, IsHeld, IsFree, IsTimed, IsApplied, Justification, IsSilent, IsSilent-Free,
}
use locations.Publisher.Writing.Silent.{
  refresh_matched_clusters-Emits, report_foreign_managers-Emits, refuse-Emits,
  refuse_unlabelled-Emits,
}

module _ (V : Env) (r : Reconciler) (name : String) where
  abbrev J : Calls V r → Call V.Failure → Type 0
  J = Justification V r name

  abbrev Done : {A : Type 0} → A → Calls V r → Type 0
  Done a now = Unit {0}

  -- A run that writes nothing keeps what was known.
  pub silent :
      {A : Type 0} (m : M V A) (now : Calls V r) → Emits (IsSilent V r) m → Traced J Done now m
  silent m now h =
      Emits-Traced J (λ _. Unit {0}) (λ _ _ _. tt) m tt
        (weaken-Emits (IsSilent V r) _ m (IsSilent-Free V r name) h)

  pub silent-after :
      {A : Type 0} (P : Calls V r → Type 0)
      (keep : (c : Call V.Failure) (now : Calls V r) → P now → P (c ∷ now)) (m : M V A)
      (now : Calls V r)
      → P now
      → Emits (IsSilent V r) m
      → Traced J (λ a. P) now m
  silent-after P keep m now p h =
      Emits-Traced J P keep m p (weaken-Emits (IsSilent V r) _ m (IsSilent-Free V r name) h)

  -- What the hub has answered about the copy of this name.
  abbrev pub IsAnswered : String → Option ServingLocation → Calls V r → Type 0
  IsAnswered n none now = IsFree V r n none now
  IsAnswered n (some p) now = Some (IsHeld V r n p) now

  pub keep-IsFree :
      (n : String) (o : Option ServingLocation) (c : Call V.Failure) (now : Calls V r)
      → IsFree V r n o now
      → IsFree V r n o (c ∷ now)
  keep-IsFree n none c now h = inr h
  keep-IsFree n (some p) c now (owned, h) = (owned, inr h)

  answered-IsFree :
      (n : String) (o : Option ServingLocation) (now : Calls V r)
      → is_unowned o ≡ false
      → IsAnswered n o now
      → IsFree V r n o now
  unfolding is_unowned
  answered-IsFree n none now e h = h
  answered-IsFree n (some p) now e h = (ground arith, h)

  read_answer-Traced :
      (n : String) (answer : Except V.Failure ServingLocation) (now : Calls V r)
      → Traced J (IsAnswered n) (Call.got_published n answer ∷ now) (read_answer V n answer)
  read_answer-Traced n (ok q) now = pure-Traced J (some q) (inl refl)
  read_answer-Traced n (err e) now =
      if-Traced J (V.is_not_found e) _ _ (λ gone. pure-Traced J none (inl (e, refl, gone)))
        (λ _. raise-Traced J _)

  pub read_published-Traced :
      (n : String) (now : Calls V r) → Traced J (IsAnswered n) now (read_published V n)
  unfolding read_published
  read_published-Traced n now = query-bind-Traced J _ _ _ (λ _. tt) λ a. read_answer-Traced n a now

  clear_blocked-Traced :
      (n : String) (o : Option ServingLocation) (now : Calls V r)
      → IsFree V r n o now
      → Traced J Done now (clear_blocked V o)
  unfolding clear_blocked
  clear_blocked-Traced n none now h = pure-Traced J tt tt
  clear_blocked-Traced n (some p) now (owned, h) =
      if-Traced J (contains location_removal_blocked_annotation p.meta.annotations) _ _
        (λ _. request-Traced J _ _ _ (λ _. (owned, (n, h), (_, refl))) (λ _. tt))
        (λ _. pure-Traced J tt tt)

  record_blocked-Traced :
      (p : ServingLocation) (d : RemovalDecision) (now : Calls V r)
      → IsFree V r name (some p) now
      → Traced J Done now (record_blocked V p d)
  unfolding record_blocked
  record_blocked-Traced p d now (owned, h) =
      if-Traced J (index location_removal_blocked_annotation p.meta.annotations == blocked_text d) _
        _ (λ _. pure-Traced J tt tt)
        (λ _. request-Traced J _ _ _ (λ _. (owned, (name, h), (_, refl))) (λ _. tt))

  pub retain_copy-Traced :
      (p : ServingLocation) (d : RemovalDecision) (now : Calls V r)
      → IsFree V r name (some p) now
      → Traced J Done now (retain_copy V r name p d)
  unfolding retain_copy
  retain_copy-Traced p d now h =
      bind-Traced J (λ _. IsFree V r name (some p))
        (note-Traced J _ tt (keep-IsFree name (some p) _ now h))
        λ _ after h'.
          bind-Traced J Done (record_blocked-Traced p d after h') λ _ _ _. pure-Traced J _ tt

  module _ (l : Location) (held : Option ServingLocation) where
    abbrev n : String
    n = l.meta.name

    -- What is known of the Location and its copy while it is published.
    abbrev IsKnown : Calls V r → Type 0
    IsKnown now = Some (IsFound V r name l) now × IsFree V r n held now

    keep-IsKnown : (c : Call V.Failure) (now : Calls V r) → IsKnown now → IsKnown (c ∷ now)
    keep-IsKnown c now (a, b) = (inr a, keep-IsFree n held c now b)

    write_copy-Traced :
        (time : Time) (now : Calls V r)
        → trimmed_city_code l ≢ ""
        → IsKnown now
        → IsTimed V r l held time now
        → Traced J Done now (write_copy V r l held time)
    unfolding write_copy apply_propagation_policy
    write_copy-Traced time now coded known timed =
        bind-Traced J Done
          (bind-Traced J Done
            (bind-Traced J Done
              (bind-Traced J Done
                (bind-Traced J (λ _. IsKnown)
                  (bind-Traced J (λ _ after. IsKnown after × Some (IsApplied V r l) after)
                    (request-Traced J _ _ _
                      (λ _. (l, held, time, refl, coded, known.0, known.1, timed))
                      (λ _. (keep-IsKnown _ now known, inl (time, refl))))
                    λ _ after facts.
                      request-Traced J _ _ _ (λ _. (l, refl, facts.0.0, facts.1))
                        (λ _. keep-IsKnown _ after facts.0))
                  λ _ after facts. clear_blocked-Traced n held after facts.1)
                λ _ _ _. note-Traced J _ tt tt)
              λ _ _ _. note-Traced J _ tt tt)
            λ _ after _. silent _ after (refresh_matched_clusters-Emits V r n))
          λ _ _ _. pure-Traced J _ tt

    publish_owned-Traced :
        (now : Calls V r)
        → trimmed_city_code l ≢ ""
        → IsKnown now
        → Traced J Done now (publish_owned V r l held (trimmed_city_code l))
    unfolding publish_owned
    publish_owned-Traced now coded known =
        bind-Traced J (λ _. IsKnown)
          (silent-after IsKnown keep-IsKnown _ now known (report_foreign_managers-Emits V r l held))
          λ _ after facts.
            query-bind-Traced J _ _ _ (λ _. tt)
              λ clock.
                write_copy-Traced _ _ coded (keep-IsKnown _ after facts) (clock, refl, inl refl)

  pub publish-Traced :
      (l : Location) (now : Calls V r)
      → Some (IsFound V r name l) now
      → Traced J Done now (publish V r l)
  unfolding publish publish_with_city
  publish-Traced l now found =
      if-Traced J (trimmed_city_code l == "") _ _ (λ _. silent _ now (refuse-Emits V r l))
        λ coded.
          bind-Traced J (λ _. Some (IsFound V r name l)) (note-Traced J _ tt (inr found))
            λ _ after found'.
              bind-Traced J _
                (frame J (Some (IsFound V r name l)) (λ _ _ k. inr k) found'
                  (read_published-Traced l.meta.name after))
                λ held later facts.
                  if-Traced J (is_unowned held) _ _
                    (λ _. silent _ later (refuse_unlabelled-Emits V r l))
                    (λ owned.
                      publish_owned-Traced l held later
                        (ground (arith, coded, eq_iff (trimmed_city_code l) ""))
                        (facts.0, answered-IsFree l.meta.name held later owned facts.1))
