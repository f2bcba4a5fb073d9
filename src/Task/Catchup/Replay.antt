-- ===== src/Task/Catchup/Replay.antt =====
-- The whole of a catch-up: `events` of src/task/statuscatchup.rs.
use dreamscroll.Base.{
  ◌≡◌, refl, sym, ap, ◌∙◌, Bool, true, false, Option, none, some, List, [], ◌∷◌, All, All-map,
  Pairwise, if◌then◌else◌,
}
use mathlib.Core.Path.{subst}
use dreamscroll.Base.Words.{I32}
use dreamscroll.Base.Text.{Text}
use dreamscroll.Base.Results.{Result, ok, pure, convert, convert-inv, continue-inv}
use dreamscroll.Error.{internal}
use dreamscroll.Task.Row.{Row, filter}
use dreamscroll.Task.Database.{World, DbErr, query, report_of, advance}
use dreamscroll.Task.Database.Effects.{statement-ok}
use dreamscroll.Sse.Event.{TaskStatusUpdate}
use dreamscroll.Task.Catchup.{
  is_wanted, is_empty, same_group, order_rows, latest_task_runs, query_latest_task_runs, Known,
  gather, replay, cons_some, replay_all, replayed, events,
}
use dreamscroll.Task.Catchup.Scope.{
  IsWanted, IsScoped, is_wanted-IsWanted, replay-IsScoped, All-filter, All-any, All-order_rows,
  All-distinct_on, distinct_on-Pairwise,
}

ok_same : {E A : Type 0} {a b : A} → ◌≡◌ {A = Result E A} (ok a) (ok b) → a ≡ b
ok_same h = cc

module _ (owner : I32) (entity_type : Text) (ids : List I32) where
  replay_all-IsScoped :
      (known : List Known) (rows : List Row)
      → All (IsWanted owner entity_type ids) rows
      → All (IsScoped owner entity_type ids) (replay_all known rows)
  unfolding replay_all cons_some
  replay_all-IsScoped known [] wanted = tt
  replay_all-IsScoped known (r ∷ rows) wanted =
      by_event (replay known r) refl (replay_all-IsScoped known rows wanted.1)
    where
      by_event :
          (o : Option TaskStatusUpdate)
          → replay known r ≡ o
          → All (IsScoped owner entity_type ids) (replay_all known rows)
          → All (IsScoped owner entity_type ids) (cons_some o (replay_all known rows))
      by_event none e later = later
      by_event (some event) e later =
          (replay-IsScoped owner entity_type ids known r event wanted.0 e, later)

  module _ (text_before : Text → Text → Bool) where
    -- The latest runs of a catch-up are runs of the owner about the entities, and no two of them are
    -- of one entity and one task type.
    pub latest_task_runs-scoped :
        (w : World)
        → All
            (IsWanted owner entity_type ids)
            (latest_task_runs text_before owner entity_type ids w)
          × Pairwise
              (λ r s. same_group r s ≡ false)
              (latest_task_runs text_before owner entity_type ids w)
    unfolding latest_task_runs
    latest_task_runs-scoped w =
        let rows = filter (is_wanted owner entity_type ids) w.rows in
        let P = IsWanted owner entity_type ids in
        (
          All-distinct_on P (order_rows text_before rows) (
              All-order_rows P text_before rows (
                All-map (λ r. Unit {0} × (is_wanted owner entity_type ids r ≡ true)) P rows
                  (λ r p. is_wanted-IsWanted owner entity_type ids r p.1)
                  (All-filter (λ r. Unit {0}) (is_wanted owner entity_type ids) w.rows
                    (All-any w.rows)))),
          distinct_on-Pairwise (order_rows text_before rows),
        )

    queried :
        (empty : Bool) (w : World) (rows : List Row)
        → ((if empty then pure [] else (λ v.
              convert report_of (query (latest_task_runs text_before owner entity_type ids) v)))
            w).0
          ≡ ok rows
        → All (IsWanted owner entity_type ids) rows
    unfolding pure query
    queried true w rows h = subst (All (IsWanted owner entity_type ids)) (ok_same h) tt
    queried false w rows h =
        let latest = latest_task_runs text_before owner entity_type ids in
        let told = convert-inv report_of (query latest w) rows h in
        let read : World → Result DbErr (List Row) × World = λ v. (ok (latest v), v) in
        let done = statement-ok read w rows told in
        subst (All (IsWanted owner entity_type ids)) (ok_same (sym (ap (λ y. y.0) done) ∙ told))
          (latest_task_runs-scoped (advance w)).0

    -- Every event of a catch-up is about one of the entities that were asked for, and belongs to the
    -- owner; it carries an estimate only for a run in progress.
    pub events-IsScoped :
        (w : World) (replies : List TaskStatusUpdate)
        → (events text_before owner entity_type ids w).0 ≡ ok replies
        → All (IsScoped owner entity_type ids) replies
    unfolding events replayed query_latest_task_runs
    events-IsScoped w replies h =
        let x = query_latest_task_runs text_before owner entity_type ids w in
        let (rows, came, same) = continue-inv replayed (convert internal x) replies h in
        let known = gather rows [] (convert internal x).1 in
        subst (All (IsScoped owner entity_type ids)) (ok_same (sym (ap (λ y. y.0) same) ∙ h)) (
          replay_all-IsScoped known.0 rows
            (queried (is_empty ids) w rows (convert-inv internal x rows came)))
