-- ===== src/Backfill/Engine/Latch.antt =====
-- The dry latch of a backfill: `ensure_not_dry` and `record_pump` of src/backfill/engine.rs.
use dreamscroll.Base.{
  ℕ, ◌<◌, ◌≡◌, refl, sym, ap, ◌∙◌, ◌⊎◌, inl, inr, Bool, true, false, Option, none, some, List, [],
  ◌∷◌, ◌==◌, if◌then◌else◌, arith,
}
use mathlib.Core.Path.{subst}
use dreamscroll.Base.Text.{Text, text_eq, text_eq_refl}
use dreamscroll.Base.Results.{
  Result, ok, err, Exec, convert, continue, continue-inv, convert-inv, lift, ◌>>=◌, ◌>>◌,
}
use dreamscroll.Error.{ApiError, internal, conflict, new}
use dreamscroll.Task.Definition.{Task}
use dreamscroll.Task.Database.{World, BackfillRecord, DbErr, advance, query, statement, connection}
use dreamscroll.Task.Database.Effects.{statement-ok, statement-keeps, query_cases}
use dreamscroll.Backfill.Definition.{Backfill, BackfillPumpResponse}
use dreamscroll.Backfill.Engine.{
  Formats, Submit, from_db_err, find_record, unless_dry, ensure_not_dry, streak, put_record,
  upserted_record, returned, record_pump, select_targets, pumped, pump_definition,
}

-- The start of the dry streak that is recorded for a backfill, if there is one.
since_of : Option BackfillRecord → Option ℕ
since_of none = none
since_of (some r) = r.dry_since

pub recorded_since : Text → List BackfillRecord → Option ℕ
unfolding since_of
recorded_since id records = since_of (find_record id records)

-- What an upsert of a pump at this time has left for the backfill.
Observed : Text → Bool → ℕ → List BackfillRecord → List BackfillRecord → Type 0
Observed id dry now before after =
    (r : BackfillRecord) × (find_record id after ≡ some r)
    × (r.last_pumped_at ≡ now)
    × (r.dry_since ≡ streak dry now (recorded_since id before))

put_record-Observed :
    (id : Text) (dry : Bool) (now : ℕ) (records : List BackfillRecord)
    → Observed id dry now records (put_record id dry now records)
unfolding put_record Observed recorded_since find_record
put_record-Observed id dry now [] = (
  record { backfill_id = id; last_pumped_at = now; dry_since = streak dry now none },
  rw (text_eq_refl id) refl,
  refl,
  refl,
)
put_record-Observed id dry now (r ∷ records) =
    by_test (text_eq r.backfill_id id) refl (put_record-Observed id dry now records)
  where
    by_test :
        (b : Bool)
        → text_eq r.backfill_id id ≡ b
        → Observed id dry now records (put_record id dry now records)
        → (s : BackfillRecord) × (find_record id (
              if b
              then record r { last_pumped_at = now; dry_since = streak dry now r.dry_since }
                ∷ records
              else r ∷ put_record id dry now records)
            ≡ some s)
          × (s.last_pumped_at ≡ now)
          × (s.dry_since ≡ streak dry now (since_of (if b then some r else find_record id records)))
    by_test true e later = (
      record r { last_pumped_at = now; dry_since = streak dry now r.dry_since },
      rw e refl,
      refl,
      refl,
    )
    by_test false e (s, found, at, since) = (s, rw e found, at, since)

returned-ok :
    (o : Option BackfillRecord) (at : ℕ) (since : Option ℕ)
    → returned o ≡ ok (at, since)
    → (r : BackfillRecord) × (o ≡ some r) × (r.last_pumped_at ≡ at) × (r.dry_since ≡ since)
unfolding returned
returned-ok none at since h = cc
returned-ok (some r) at since h = (r, refl, cc, cc)

Observed-row :
    (id : Text) (dry : Bool) (now : ℕ) (before after : List BackfillRecord) (r : BackfillRecord)
    → Observed id dry now before after
    → find_record id after ≡ some r
    → (r.last_pumped_at ≡ now) × (r.dry_since ≡ streak dry now (recorded_since id before))
unfolding Observed
Observed-row id dry now before after r (s, found, at, since) h =
    let same : s ≡ r = cc in
    (ap (λ x. x.last_pumped_at) (sym same) ∙ at, ap (λ x. x.dry_since) (sym same) ∙ since)

-- The start of a dry streak behind a pump, by whether the pump was dry, the pump's time, and the
-- start that was recorded before: a pump that was not dry ends the streak, a dry one begins it, or
-- leaves the start of the one that is going on.
pub data StreakBehind (at : ℕ) : Bool → Option ℕ → Option ℕ → Type 0 where
  ends : (before : Option ℕ) → StreakBehind at false before none
  begins : StreakBehind at true none (some at)
  goes_on : (since : ℕ) → StreakBehind at true (some since) (some since)

-- A streak goes on behind a dry pump, and there is none behind another.
pub StreakBehind-since :
    {at : ℕ} {dry : Bool} {before since : Option ℕ}
    → StreakBehind at dry before since
    → (dry ≡ true → (s : ℕ) × (since ≡ some s)) × (dry ≡ false → since ≡ none)
StreakBehind-since (ends before) = (λ h. cc, λ h. refl)
StreakBehind-since {at} begins = (λ h. (at, refl), λ h. cc)
StreakBehind-since (goes_on since) = (λ h. (since, refl), λ h. cc)

streak-StreakBehind :
    (dry : Bool) (at : ℕ) (before : Option ℕ) → StreakBehind at dry before (streak dry at before)
unfolding streak
streak-StreakBehind false at before = ends before
streak-StreakBehind true at none = begins
streak-StreakBehind true at (some since) = goes_on since

-- An observation that is reported was recorded. The start of the dry streak that it reports is none,
-- if the pump was not dry; behind a dry pump it is the start that was recorded before, or the time
-- that is reported, where none was recorded.
pub record_pump-ok :
    (id : Text) (dry : Bool) (w : World) (at : ℕ) (since : Option ℕ)
    → (record_pump id dry w).0 ≡ ok (at, since)
    → StreakBehind at dry (recorded_since id w.backfills) since
      × (recorded_since id (record_pump id dry w).1.backfills ≡ since)
unfolding record_pump upserted_record lift advance recorded_since
record_pump-ok id dry w at since h =
    let x = statement (upserted_record id dry) w in
    let (row, came, same) =
      continue-inv (λ o. lift (returned o)) (convert from_db_err x) (at, since) h in
    let told = convert-inv from_db_err x row came in
    let done = statement-ok (upserted_record id dry) w row told in
    let (r, row_same, at_same, since_same) =
      returned-ok row at since (sym (ap (λ y. y.0) same) ∙ h) in
    let after = put_record id dry (advance w).now w.backfills in
    let found : find_record id after ≡ some r =
      some_row (sym (ap (λ y. y.0) done) ∙ told) ∙ row_same in
    let (at_now, since_now) =
      Observed-row id dry (advance w).now w.backfills after r
        (put_record-Observed id dry (advance w).now w.backfills) found in
    (
      subst (StreakBehind at dry (recorded_since id w.backfills))
          (sym (
            sym since_same
            ∙ since_now
            ∙ ap (λ k. streak dry k (recorded_since id w.backfills)) (sym at_now ∙ at_same)))
          (streak-StreakBehind dry at (recorded_since id w.backfills)),
      ap (λ y. recorded_since id y.1.backfills) same
          ∙ ap (λ y. recorded_since id y.1.backfills) done
          ∙ ap since_of found
          ∙ since_same,
    )
  where
    some_row :
        {o p : Option BackfillRecord}
        → ◌≡◌ {A = Result DbErr (Option BackfillRecord)} (ok o) (ok p)
        → o ≡ p
    some_row e = cc

-- An error that ends an operation, with the tables as they were.
pub record Refuses {A : Type 0} (w : World) (code : ℕ) (out : Result ApiError A × World)
    : Type 0 where
  pub error : ApiError
  pub reason : out.0 ≡ err error
  pub code_is : (error.http_status_code ≡ code) ⊎ (error.http_status_code ≡ 500)
  pub rows_stay : out.1.rows ≡ w.rows
  pub backfills_stay : out.1.backfills ≡ w.backfills

module _ {A B : Type 0} where
  Refuses-bind :
      (w : World) (code : ℕ) (x : Result ApiError A × World) (f : A → Exec World ApiError B)
      → Refuses w code x
      → Refuses w code (continue x f)
  Refuses-bind w code (ok a, v) f h = absurd (clash h.reason)
    where
      clash : {e : ApiError} → ◌≡◌ {A = Result ApiError A} (ok a) (err e) → ⊥
      clash e = cc
  Refuses-bind w code (err e, v) f h = record {
    error = e;
    reason = refl;
    code_is =
        subst (λ k. (k.http_status_code ≡ code) ⊎ (k.http_status_code ≡ 500)) (same h.reason)
          h.code_is;
    rows_stay = h.rows_stay;
    backfills_stay = h.backfills_stay;
  }
    where
      same : {d : ApiError} → ◌≡◌ {A = Result ApiError A} (err e) (err d) → d ≡ e
      same k = cc

pub query_keeps :
    {A : Type 0} (f : World → A) (w : World)
    → ((query f w).1.rows ≡ w.rows) × ((query f w).1.backfills ≡ w.backfills)
unfolding query advance
query_keeps f w =
    statement-keeps (λ v. (v.rows ≡ w.rows) × (v.backfills ≡ w.backfills)) (λ v. (ok (f v), v)) w
      (refl, refl) (refl, refl)

module _ (formats : Formats) where
  latched :
      (id : Text) (r : BackfillRecord) (since : Option ℕ) (t : ℕ)
      → since ≡ some t
      → r.dry_since ≡ since
      → (error : ApiError) × (unless_dry formats id (some r) ≡ err error)
        × (error.http_status_code ≡ 409)
  unfolding unless_dry conflict new
  latched id r none t e h = cc
  latched id r (some since) t e h = rw h (_, refl, refl)

  answer-Refuses :
      (id : Text) (w : World) (r : BackfillRecord) (t : ℕ)
      (x : Result DbErr (Option BackfillRecord) × World) (report : Text)
      → (x.0 ≡ ok (some r)) ⊎ (x.0 ≡ err (connection report))
      → (x.1.rows ≡ w.rows) × (x.1.backfills ≡ w.backfills)
      → r.dry_since ≡ some t
      → Refuses w 409
          (continue (convert from_db_err x) (λ found. lift (unless_dry formats id found)))
  unfolding lift from_db_err internal new
  answer-Refuses id w r t (ok found, v) report (inl e) stay dry =
      let same : found ≡ some r = cc in
      let (error, told, code) = latched id r (some t) t refl dry in
      record {
        error = error;
        reason = ap (unless_dry formats id) same ∙ told;
        code_is = inl code;
        rows_stay = stay.0;
        backfills_stay = stay.1;
      }
  answer-Refuses id w r t (ok found, v) report (inr e) stay dry = cc
  answer-Refuses id w r t (err d, v) report answer stay dry = record {
    error = _;
    reason = refl;
    code_is = inr refl;
    rows_stay = stay.0;
    backfills_stay = stay.1;
  }

pub positive_test : (n : ℕ) → 0 < n → (n == 0) ≡ false
positive_test n h = ground arith

else_case :
    {A : Type 0} (b : Bool) (m n : A) (P : A → Type 0) → b ≡ false → P n → P (if b then m else n)
else_case true m n P h p = cc
else_case false m n P h p = p

module _ {T : Type 0} (task : Task T) (formats : Formats) (backfill : Backfill T)
    (submit : Submit T) where
  -- While a dry streak is recorded for a backfill, a pump without force submits nothing: it is
  -- refused as a conflict, or a query fails, and the runs and the observations stay.
  pub pump_definition-latched :
      (limit : ℕ) (w : World) (r : BackfillRecord) (t : ℕ)
      → 0 < limit
      → find_record backfill.id w.backfills ≡ some r
      → r.dry_since ≡ some t
      → Refuses w 409 (pump_definition task formats backfill submit limit false w)
  unfolding pump_definition ensure_not_dry advance
  pump_definition-latched limit w r t positive found dry =
      else_case (limit == 0) _ (ensure_not_dry formats backfill.id false >> rest)
        (λ m. Refuses w 409 (m w)) (positive_test limit positive)
        (Refuses-bind w 409 (ensure_not_dry formats backfill.id false w) (λ _. rest)
          (answer-Refuses formats backfill.id w r t (query recorded w) _
            (subst
              (λ o.
                ((query recorded w).0 ≡ ok o) ⊎ ((query recorded w).0 ≡ err (connection report)))
              found (query_cases recorded w))
            (query_keeps recorded w) dry))
    where
      recorded : World → Option BackfillRecord
      recorded v = find_record backfill.id v.backfills

      report : Text
      report = (w.env.moments w.tick).report

      rest : Exec World ApiError BackfillPumpResponse
      rest = select_targets task backfill limit >>= pumped task formats backfill submit
