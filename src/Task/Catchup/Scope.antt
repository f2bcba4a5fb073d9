-- ===== src/Task/Catchup/Scope.antt =====
-- Whose events a catch-up replays: src/task/statuscatchup.rs.
use dreamscroll.Base.{
  ◌≡◌, refl, sym, ap, ◌∙◌, ◌⊎◌, inl, inr, Bool, true, false, not, none, some, List, [], ◌∷◌, ◌&&◌,
  ◌==◌, ==→eq, if◌then◌else◌, All, All-map, Pairwise,
}
use dreamscroll.Base.Words.{I32}
use dreamscroll.Base.Text.{Text, text_eq, text_eq→eq}
use dreamscroll.Task.Status.{TaskRunStatus, in_progress, as_i32, from_i32}
use dreamscroll.Task.Row.{Row, filter}
use dreamscroll.Sse.Event.{TaskStatusUpdate, estimated, from_row}
use dreamscroll.Sse.Event.Contents.{from_row-IsEventOf}
use dreamscroll.Task.Catchup.{
  is_running, among, is_wanted, same_group, distinct_on, row_before, insert_ordered, order_rows,
  Known, find_known, flat, replay,
}

module _ (P : Row → Type 0) where
  pub All-filter :
      (keep : Row → Bool) (rows : List Row)
      → All P rows
      → All (λ r. P r × (keep r ≡ true)) (filter keep rows)
  unfolding filter
  All-filter keep [] ps = tt
  All-filter keep (r ∷ rows) ps = by_test (keep r) refl (All-filter keep rows ps.1)
    where
      by_test :
          (b : Bool)
          → keep r ≡ b
          → All (λ s. P s × (keep s ≡ true)) (filter keep rows)
          → All (λ s. P s × (keep s ≡ true)) (if b then r ∷ filter keep rows else filter keep rows)
      by_test true e later = ((ps.0, e), later)
      by_test false e later = later

  pub All-distinct_on : (rows : List Row) → All P rows → All P (distinct_on rows)
  unfolding distinct_on
  All-distinct_on [] ps = tt
  All-distinct_on (r ∷ rows) ps = (
    ps.0,
    All-map (λ s. P s × (not (same_group r s) ≡ true)) P
        (filter (λ s. not (same_group r s)) (distinct_on rows)) (λ s p. p.0)
        (All-filter (λ s. not (same_group r s)) (distinct_on rows) (All-distinct_on rows ps.1)),
  )

  module _ (text_before : Text → Text → Bool) where
    All-insert_ordered :
        (r : Row) (rows : List Row) → P r → All P rows → All P (insert_ordered text_before r rows)
    unfolding insert_ordered
    All-insert_ordered r [] p ps = (p, tt)
    All-insert_ordered r (s ∷ rows) p ps =
        by_test (row_before text_before s r) (All-insert_ordered r rows p ps.1)
      where
        by_test :
            (b : Bool)
            → All P (insert_ordered text_before r rows)
            → All P (if b then s ∷ insert_ordered text_before r rows else r ∷ s ∷ rows)
        by_test true later = (ps.0, later)
        by_test false later = (p, ps)

    pub All-order_rows : (rows : List Row) → All P rows → All P (order_rows text_before rows)
    unfolding order_rows
    All-order_rows [] ps = tt
    All-order_rows (r ∷ rows) ps =
        All-insert_ordered r (order_rows text_before rows) ps.0 (All-order_rows rows ps.1)

pub All-any : (rows : List Row) → All (λ r. Unit {0}) rows
All-any [] = tt
All-any (r ∷ rows) = (tt, All-any rows)

-- One row for each group.
Pairwise-filter :
    (R : Row → Row → Type 0) (keep : Row → Bool) (rows : List Row)
    → Pairwise R rows
    → Pairwise R (filter keep rows)
unfolding filter
Pairwise-filter R keep [] h = tt
Pairwise-filter R keep (r ∷ rows) h = by_test (keep r) (Pairwise-filter R keep rows h.1)
  where
    by_test :
        (b : Bool)
        → Pairwise R (filter keep rows)
        → Pairwise R (if b then r ∷ filter keep rows else filter keep rows)
    by_test true later = (
      All-map (λ s. R r s × (keep s ≡ true)) (R r) (filter keep rows) (λ s p. p.0)
          (All-filter (R r) keep rows h.0),
      later,
    )
    by_test false later = later

not-true : (b : Bool) → not b ≡ true → b ≡ false
not-true true h = cc
not-true false h = refl

pub distinct_on-Pairwise :
    (rows : List Row) → Pairwise (λ r s. same_group r s ≡ false) (distinct_on rows)
unfolding distinct_on
distinct_on-Pairwise [] = tt
distinct_on-Pairwise (r ∷ rows) = (
  All-map (λ s. Unit {0} × (not (same_group r s) ≡ true)) (λ s. same_group r s ≡ false)
      (filter (λ s. not (same_group r s)) (distinct_on rows)) (λ s p. not-true (same_group r s) p.1)
      (All-filter (λ s. Unit {0}) (λ s. not (same_group r s)) (distinct_on rows)
        (All-any (distinct_on rows))),
  Pairwise-filter (λ q s. same_group q s ≡ false) (λ s. not (same_group r s)) (distinct_on rows)
      (distinct_on-Pairwise rows),
)

-- A row of the owner, about one of the entities.
pub IsWanted : I32 → Text → List I32 → Row → Type 0
IsWanted owner entity_type ids r =
    (r.entity_owner_id ≡ owner) × (r.entity_type ≡ entity_type) × (among ids r.entity_id ≡ true)

and_true : (p q : Bool) → (p && q) ≡ true → (p ≡ true) × (q ≡ true)
and_true true q h = (refl, h)
and_true false q h = cc

pub is_wanted-IsWanted :
    (owner : I32) (entity_type : Text) (ids : List I32) (r : Row)
    → is_wanted owner entity_type ids r ≡ true
    → IsWanted owner entity_type ids r
unfolding is_wanted IsWanted
is_wanted-IsWanted owner entity_type ids r h =
    let (own, others) = and_true (r.entity_owner_id == owner) _ h in
    let (type_same, entity) = and_true (text_eq r.entity_type entity_type) _ others in
    (==→eq _ _ own, text_eq→eq _ _ type_same, entity)

-- An event about one of the owner's entities, with an estimate only while the run is in progress.
unfoldable pub IsScoped : I32 → Text → List I32 → TaskStatusUpdate → Type 0
IsScoped owner entity_type ids e =
    (e.entity_owner_id ≡ some owner)
    × (e.entity_type ≡ entity_type)
    × (among ids e.entity_id ≡ true)
    × ((e.payload.estimated_duration_ms_p50 ≡ none) ⊎ (e.payload.status ≡ in_progress))

running_status :
    (row : Row) (status : TaskRunStatus)
    → is_running row ≡ true
    → from_i32 row.status_code ≡ some status
    → status ≡ in_progress
unfolding is_running as_i32 from_i32
running_status row status running known =
    let code : row.status_code ≡ 2 = ==→eq row.status_code 2 running in
    let told : from_i32 2 ≡ some status = ap from_i32 (sym code) ∙ known in cc

pub replay-IsScoped :
    (owner : I32) (entity_type : Text) (ids : List I32) (known : List Known) (row : Row)
    (e : TaskStatusUpdate)
    → IsWanted owner entity_type ids row
    → replay known row ≡ some e
    → IsScoped owner entity_type ids e
unfolding replay IsWanted IsScoped estimated
replay-IsScoped owner entity_type ids known row e (own, type_same, entity) =
    by_test (is_running row) refl
  where
    by_test :
        (b : Bool)
        → is_running row ≡ b
        → from_row row (if b then flat (find_known row.task_type known) else none) ≡ some e
        → (e.entity_owner_id ≡ some owner)
          × (e.entity_type ≡ entity_type)
          × (among ids e.entity_id ≡ true)
          × ((e.payload.estimated_duration_ms_p50 ≡ none) ⊎ (e.payload.status ≡ in_progress))
    by_test true running h =
        let of_row = from_row-IsEventOf row (flat (find_known row.task_type known)) e h in
        (
          of_row.owner ∙ ap some own,
          of_row.entity_type ∙ type_same,
          ap (among ids) of_row.entity ∙ entity,
          inr (running_status row e.payload.status running of_row.status),
        )
    by_test false idle h =
        let of_row = from_row-IsEventOf row none e h in
        (
          of_row.owner ∙ ap some own,
          of_row.entity_type ∙ type_same,
          ap (among ids) of_row.entity ∙ entity,
          inl of_row.duration,
        )
