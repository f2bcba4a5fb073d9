-- ===== src/Backfill/Engine/Counting.antt =====
-- The response of a pump: `pump_definition` of src/backfill/engine.rs.
use dreamscroll.Base.{
  ℕ, suc, ◌+◌, ◌≤◌, ◌<◌, ◌≡◌, refl, sym, ap, ◌∙◌, ◌⊎◌, inl, inr, Bool, true, false, Option, none,
  some, List, [], ◌∷◌, ◌==◌, length, length-append, length-take-le, if◌then◌else◌, arith,
}
use mathlib.Core.Path.{subst}
use dreamscroll.Base.Text.{codes}
use dreamscroll.Base.Results.{
  Result, ok, err, Exec, continue-inv, convert-inv, pure-inv, raise, pure, ◌>>=◌, ◌>>◌,
}
use dreamscroll.Error.{ApiError, bad_request}
use dreamscroll.Task.Definition.{Task}
use dreamscroll.Task.Database.{World, DbErr, query, advance}
use dreamscroll.Task.Database.Effects.{statement-ok}
use dreamscroll.Task.Master.{
  SubmitOutcome, enqueued, already_submitted_backfill, refused_already_in_flight,
}
use dreamscroll.Backfill.Definition.{Backfill, BackfillTarget, BackfillPumpResponse}
use dreamscroll.Backfill.Engine.{
  from_db_err, Formats, Submit, Tally, count, submit_all, record_pump, is_none_selected,
  select_targets, selection, ensure_not_dry, respond, concluded, no_tally, pumped, pump_definition,
}
use dreamscroll.Backfill.Engine.Latch.{
  recorded_since, record_pump-ok, StreakBehind, StreakBehind-since,
}

total : Tally → ℕ
total tally =
    tally.enqueued_count
    + tally.already_submitted_count
    + tally.refused_in_flight_count
    + length tally.errors

module _ (formats : Formats) where
  count-total :
      (target : BackfillTarget) (r : Result ApiError SubmitOutcome) (tally : Tally)
      → total (count formats target r tally) ≡ suc (total tally)
  unfolding total count
  count-total target (ok (enqueued run_id run_number)) tally = omega arith
  count-total target (ok (already_submitted_backfill run_id run_number)) tally = omega arith
  count-total target (ok refused_already_in_flight) tally = omega arith
  count-total target (err error) tally = omega (arith, length-append tally.errors (_ ∷ []))

module _ {T : Type 0} (t : Task T) (formats : Formats) (backfill : Backfill T)
    (submit : Submit T) where
  submit_all-total :
      (targets : List BackfillTarget) (tally : Tally) (w : World)
      → total (submit_all t formats backfill submit targets tally w).0
        ≡ length targets + total tally
  unfolding submit_all
  submit_all-total [] tally w = omega arith
  submit_all-total (target ∷ targets) tally w =
      let x = submit (backfill.make_task target) backfill.id w in
      omega (
        arith,
        submit_all-total targets (count formats target x.0 tally) x.1,
        count-total formats target x.0 tally,
      )

  -- What a response says of a pump whose limit was `limit`.
  pub record IsAccount (limit : ℕ) (response : BackfillPumpResponse) : Type 0 where
    pub counted :
        response.selected_count
        ≡ response.enqueued_count
          + response.already_submitted_count
          + response.refused_in_flight_count
          + length response.errors
    pub bounded : response.selected_count ≤ limit
    pub latch :
        ((response.selected_count ≡ 0) × (since : ℕ) × (response.dry_since ≡ some since))
        ⊎ ((0 < response.selected_count) × (response.dry_since ≡ none))

  latch_of :
      (targets : List BackfillTarget) (now : ℕ) (before since : Option ℕ)
      → StreakBehind now (is_none_selected targets) before since
      → ((length targets ≡ 0) × (s : ℕ) × (since ≡ some s))
        ⊎ ((0 < length targets) × (since ≡ none))
  unfolding is_none_selected
  latch_of [] now before since e =
      let (s, told) = (StreakBehind-since e).0 refl in inl (refl, s, told)
  latch_of (target ∷ targets) now before since e = inr (omega arith, (StreakBehind-since e).1 refl)

  concluded-IsAccount :
      (limit : ℕ) (targets : List BackfillTarget) (tally : Tally) (w : World)
      (response : BackfillPumpResponse)
      → length targets ≤ limit
      → total tally ≡ length targets
      → (concluded t formats backfill submit targets (tally, w)).0 ≡ ok response
      → IsAccount limit response
  unfolding concluded respond total
  concluded-IsAccount limit targets tally w response small whole h =
      let dry = is_none_selected targets in
      let x = record_pump backfill.id dry w in
      let ((at, since), came, same) =
        continue-inv (λ o. pure (respond t formats backfill submit targets tally o)) x response h in
      let (since_is, kept) = record_pump-ok backfill.id dry w at since came in
      subst (IsAccount limit)
        (pure-inv x.1 (respond t formats backfill submit targets tally (at, since)) response
          (sym (ap (λ y. y.0) same) ∙ h))
        (record {
          counted = sym whole;
          bounded = small;
          latch = latch_of targets at (recorded_since backfill.id w.backfills) since since_is;
        })

  pumped-IsAccount :
      (limit : ℕ) (targets : List BackfillTarget) (w : World) (response : BackfillPumpResponse)
      → length targets ≤ limit
      → (pumped t formats backfill submit targets w).0 ≡ ok response
      → IsAccount limit response
  unfolding pumped total
  pumped-IsAccount limit targets w response small h =
      let nothing = no_tally t formats backfill submit in
      let x = submit_all t formats backfill submit targets nothing w in
      concluded-IsAccount limit targets x.0 x.1 response small
        (omega (arith, submit_all-total targets nothing w)) h

  raised :
      (e : ApiError) (w : World) (response : BackfillPumpResponse)
      → (raise {A = BackfillPumpResponse} e w).0 ≡ ok response
      → ⊥
  unfolding raise
  raised e w response h = cc

  positive : (n : ℕ) → (n == 0) ≡ false → 0 < n
  positive n h = ground arith

  selection-bound : (limit : ℕ) (w : World) → length (selection t backfill limit w) ≤ limit
  unfolding selection
  selection-bound limit w = length-take-le limit _

  selected_few :
      (limit : ℕ) (w : World) (targets : List BackfillTarget)
      → (select_targets t backfill limit w).0 ≡ ok targets
      → length targets ≤ limit
  unfolding select_targets query
  selected_few limit w targets h =
      let read : World → Result DbErr (List BackfillTarget) × World =
        λ v. (ok (selection t backfill limit v), v) in
      let told = convert-inv from_db_err (query (selection t backfill limit) w) targets h in
      let done = statement-ok read w targets told in
      let same : selection t backfill limit (advance w) ≡ targets =
        ok_same (sym (ap (λ y. y.0) done) ∙ told) in
      subst (λ l. length l ≤ limit) same (selection-bound limit (advance w))
    where
      ok_same :
          {l m : List BackfillTarget}
          → ◌≡◌ {A = Result DbErr (List BackfillTarget)} (ok l) (ok m)
          → l ≡ m
      ok_same e = cc

  -- A pump that answers has counted every selected target once, has selected no more than its
  -- limit, which is positive, and reports a dry streak exactly if it selected nothing.
  pub pump_definition-counted :
      (limit : ℕ) (force : Bool) (w : World) (response : BackfillPumpResponse)
      → (pump_definition t formats backfill submit limit force w).0 ≡ ok response
      → (0 < limit) × IsAccount limit response
  unfolding pump_definition
  pump_definition-counted limit force w response = by_limit (limit == 0) refl
    where
      rest : Exec World ApiError BackfillPumpResponse
      rest = select_targets t backfill limit >>= pumped t formats backfill submit

      rest_counts : (v : World) → (rest v).0 ≡ ok response → IsAccount limit response
      rest_counts v h =
          let (targets, came, same) =
            continue-inv (pumped t formats backfill submit) (select_targets t backfill limit v)
              response h in
          pumped-IsAccount limit targets (select_targets t backfill limit v).1 response
            (selected_few limit v targets came) (sym (ap (λ y. y.0) same) ∙ h)

      by_limit :
          (b : Bool)
          → (limit == 0) ≡ b
          → ((if b
                then raise (bad_request (codes "Candidate limit must be greater than zero"))
                else (ensure_not_dry formats backfill.id force >> rest))
              w).0
            ≡ ok response
          → (0 < limit) × IsAccount limit response
      by_limit true e h = absurd (raised _ w response h)
      by_limit false e h =
          let (u, came, same) =
            continue-inv (λ _. rest) (ensure_not_dry formats backfill.id force w) response h in
          (
            positive limit e,
            rest_counts (ensure_not_dry formats backfill.id force w).1
                (sym (ap (λ y. y.0) same) ∙ h),
          )
