-- ===== src/Publisher/Outcome/Published.antt =====
-- How publishing a Location ends.
use locations.Prelude.{
  String, false, not, Option, none, some, List, [], ◌∷◌, arith, ◌≡◌, ◌≢◌, refl, inl, inr,
}
use locations.Prelude.{if◌then◌else◌}
use locations.Prelude.Effect.{Except, ok, err}
use locations.Prelude.GoMap.{contains}
use locations.Prelude.Trace.{
  Some, Ends, bind-Ends, pure-Ends, raise-Ends, note-Ends, query-bind-Ends, request-Ends, if-Ends,
  attempt-Ends,
}
use locations.Api.{Location, ServingLocation, Time, ManagedFieldsEntry}
use locations.Publisher.Client.{Env, Call, Error, Reconciler, Result, Cluster, send_event}
use locations.Publisher.Ownership.{
  owns_object, is_foreign, report_entry, report_entries, report_foreign_managers,
  location_removal_blocked_annotation,
}
use locations.Publisher.Policy.{apply_propagation_policy}
use locations.Publisher.Hub.{read_answer, read_published, clear_blocked}
use locations.Publisher.Guard.{set_matched, refresh_matched_clusters}
use locations.Publisher.Publish.{
  trimmed_city_code, is_unowned, refuse_without_city, refuse_unlabelled, write_copy, publish_owned,
}
use locations.Publisher.Writing.{IsFound, IsHeld, IsApplied}
use locations.Publisher.Outcome.{
  Calls, HasFailed, IsPlaced, IsMissing, Outcome, published, without_city, not_owned,
}

module _ (V : Env) (r : Reconciler) where
  abbrev pub Bad : Calls V r → Type 0
  Bad now = Some (HasFailed V r) now

  -- What each call keeps.
  abbrev pub Keep : (Calls V r → Type 0) → Type 0
  Keep P = (c : Call V.Failure) (now : Calls V r) → P now → P (c ∷ now)

  -- What the hub has answered about the copy of this name.
  abbrev pub IsAnswered : String → Option ServingLocation → Calls V r → Type 0
  IsAnswered n none now = Some (IsMissing V r n) now
  IsAnswered n (some p) now = Some (IsHeld V r n p) now

  read_answer-Ends :
      (n : String) (answer : Except V.Failure ServingLocation) (now : Calls V r)
      → Ends (IsAnswered n) Bad (Call.got_published n answer ∷ now) (read_answer V n answer)
  read_answer-Ends n (ok q) now = pure-Ends Bad (some q) (inl refl)
  read_answer-Ends n (err e) now =
      if-Ends Bad (V.is_not_found e) _ _ (λ gone. pure-Ends Bad none (inl (e, refl, gone)))
        (λ failed. raise-Ends Bad _ (inl failed))

  pub read_published-Ends :
      (n : String) (now : Calls V r) → Ends (IsAnswered n) Bad now (read_published V n)
  unfolding read_published
  read_published-Ends n now = query-bind-Ends Bad _ _ _ λ a. read_answer-Ends n a now

  module _ (P : Calls V r → Type 0) (keep : Keep P) where
    send_event-Ends :
        (n t c m : String) (now : Calls V r)
        → P now
        → Ends (λ _. P) Bad now (send_event V r n t c m)
    unfolding send_event
    send_event-Ends n t c m now p =
        if-Ends Bad r.recorder _ _ (λ _. note-Ends Bad _ (keep _ now p)) (λ _. pure-Ends Bad tt p)

    report_entry-Ends :
        (l n : String) (entry : ManagedFieldsEntry) (now : Calls V r)
        → P now
        → Ends (λ _. P) Bad now (report_entry V r l n entry)
    unfolding report_entry
    report_entry-Ends l n entry now p =
        if-Ends Bad (is_foreign V entry) _ _
          (λ _.
            bind-Ends Bad (λ _. P) (note-Ends Bad _ (keep _ now p))
              λ _ after q. send_event-Ends _ _ _ _ after q)
          (λ _. pure-Ends Bad tt p)

    report_entries-Ends :
        (l n : String) (entries : List ManagedFieldsEntry) (now : Calls V r)
        → P now
        → Ends (λ _. P) Bad now (report_entries V r l n entries)
    unfolding report_entries
    report_entries-Ends l n [] now p = pure-Ends Bad tt p
    report_entries-Ends l n (entry ∷ entries) now p =
        bind-Ends Bad (λ _. P) (report_entry-Ends l n entry now p)
          λ _ after q. report_entries-Ends l n entries after q

    report_foreign_managers-Ends :
        (l : Location) (held : Option ServingLocation) (now : Calls V r)
        → P now
        → Ends (λ _. P) Bad now (report_foreign_managers V r l held)
    unfolding report_foreign_managers
    report_foreign_managers-Ends l none now p = pure-Ends Bad tt p
    report_foreign_managers-Ends l (some q) now p =
        report_entries-Ends _ _ q.meta.managed_fields now p

    set_matched-Ends :
        (n : String) (answer : Except (Error V.Failure) (List Cluster)) (now : Calls V r)
        → P now
        → Ends (λ _. P) Bad now (set_matched V n answer)
    set_matched-Ends n (ok items) now p = note-Ends Bad _ (keep _ now p)
    set_matched-Ends n (err e) now p = pure-Ends Bad tt p

    refresh_matched_clusters-Ends :
        (n : String) (now : Calls V r)
        → P now
        → Ends (λ _. P) Bad now (refresh_matched_clusters V n)
    unfolding refresh_matched_clusters
    refresh_matched_clusters-Ends n now p =
        bind-Ends Bad (λ _. P) (attempt-Ends Bad P _ keep p)
          λ answer after q. set_matched-Ends n answer after q

    clear_blocked-Ends :
        (held : Option ServingLocation) (now : Calls V r)
        → P now
        → Ends (λ _. P) Bad now (clear_blocked V held)
    unfolding clear_blocked
    clear_blocked-Ends none now p = pure-Ends Bad tt p
    clear_blocked-Ends (some q) now p =
        if-Ends Bad (contains location_removal_blocked_annotation q.meta.annotations) _ _
          (λ _. request-Ends Bad _ _ _ (λ _. keep _ now p) (λ _. inl tt)) (λ _. pure-Ends Bad tt p)

  module _ (name : String) (l : Location) where
    abbrev Good : Result → Calls V r → Type 0
    Good result now = Outcome V r name result now

    abbrev IsFoundHere : Calls V r → Type 0
    IsFoundHere now = Some (IsFound V r name l) now

    -- What is known once the hub has accepted both writes.
    abbrev IsWritten : Calls V r → Type 0
    IsWritten now = IsFoundHere now × Some (IsApplied V r l) now × Some (IsPlaced V r l) now

    keep-IsWritten : Keep IsWritten
    keep-IsWritten c now (f, a, p) = (inr f, inr a, inr p)

    pub refuse_without_city-Ends :
        (now : Calls V r)
        → trimmed_city_code l ≡ ""
        → IsFoundHere now
        → Ends Good Bad now (refuse_without_city V r l)
    unfolding refuse_without_city
    refuse_without_city-Ends now blank found =
        bind-Ends Bad (λ _. IsFoundHere)
          (bind-Ends Bad (λ _. IsFoundHere) (note-Ends Bad _ (inr found))
            λ _ after f. send_event-Ends IsFoundHere (λ _ _ k. inr k) _ _ _ _ after f)
          λ _ after f. pure-Ends Bad _ (without_city l blank f)

    refuse_unlabelled-Ends :
        (p : ServingLocation) (now : Calls V r)
        → owns_object p.meta ≡ false
        → Some (IsHeld V r l.meta.name p) now
        → Ends Good Bad now (refuse_unlabelled V r l)
    unfolding refuse_unlabelled
    refuse_unlabelled-Ends p now foreign held =
        bind-Ends Bad (λ _ after. Some (IsHeld V r l.meta.name p) after)
          (bind-Ends Bad (λ _ after. Some (IsHeld V r l.meta.name p) after)
            (note-Ends Bad _ (inr held))
            λ _ after f.
              send_event-Ends (λ later. Some (IsHeld V r l.meta.name p) later) (λ _ _ k. inr k) _ _
                _ _ after f)
          λ _ after f. pure-Ends Bad _ (not_owned l.meta.name p foreign f)

    write_copy-Ends :
        (held : Option ServingLocation) (time : Time) (now : Calls V r)
        → trimmed_city_code l ≢ ""
        → IsFoundHere now
        → Ends Good Bad now (write_copy V r l held time)
    unfolding write_copy apply_propagation_policy
    write_copy-Ends held time now coded found =
        bind-Ends Bad (λ _. IsWritten)
          (bind-Ends Bad (λ _. IsWritten)
            (bind-Ends Bad (λ _. IsWritten)
              (bind-Ends Bad (λ _. IsWritten)
                (bind-Ends Bad (λ _. IsWritten)
                  (bind-Ends Bad (λ _ after. IsFoundHere after × Some (IsApplied V r l) after)
                    (request-Ends Bad _ _ _ (λ _. (inr found, inl (time, refl))) (λ _. inl tt))
                    λ _ after f.
                      request-Ends Bad _ _ _ (λ _. (inr f.0, inr f.1, inl refl)) (λ _. inl tt))
                  λ _ after f. clear_blocked-Ends IsWritten keep-IsWritten held after f)
                λ _ after f. note-Ends Bad _ (keep-IsWritten _ after f))
              λ _ after f. note-Ends Bad _ (keep-IsWritten _ after f))
            λ _ after f. refresh_matched_clusters-Ends IsWritten keep-IsWritten l.meta.name after f)
          λ _ after f. pure-Ends Bad _ (published l coded f.0 f.1 f.2 refl)

    publish_owned-Ends :
        (held : Option ServingLocation) (now : Calls V r)
        → trimmed_city_code l ≢ ""
        → IsFoundHere now
        → Ends Good Bad now (publish_owned V r l held (trimmed_city_code l))
    unfolding publish_owned
    publish_owned-Ends held now coded found =
        bind-Ends Bad (λ _. IsFoundHere)
          (report_foreign_managers-Ends IsFoundHere (λ _ _ k. inr k) l held now found)
          λ _ after f. query-bind-Ends Bad _ _ _ λ clock. write_copy-Ends held _ _ coded (inr f)

    abbrev IsKnown : Option ServingLocation → Calls V r → Type 0
    IsKnown held now = IsFoundHere now × IsAnswered l.meta.name held now

    pub publish_held-Ends :
        (held : Option ServingLocation) (now : Calls V r)
        → trimmed_city_code l ≢ ""
        → IsKnown held now
        → Ends Good Bad now (
            if is_unowned held
            then refuse_unlabelled V r l
            else publish_owned V r l held (trimmed_city_code l))
    unfolding is_unowned
    publish_held-Ends none now coded f = publish_owned-Ends none now coded f.0
    publish_held-Ends (some p) now coded f =
        if-Ends Bad (not (owns_object p.meta)) _ _
          (λ foreign. refuse_unlabelled-Ends p now (ground arith) f.1)
          (λ _. publish_owned-Ends (some p) now coded f.0)
