-- ===== src/Backfill/Engine/Selection.antt =====
-- Which targets a pump selects: `select_targets` of src/backfill/engine.rs.
use dreamscroll.Base.{
  ℕ, zero, suc, ◌≤◌, ◌<◌, ◌≡◌, refl, Bool, true, false, List, [], ◌∷◌, length, take, length-take-le,
  if◌then◌else◌, All, arith,
}
use dreamscroll.Task.Definition.{Task}
use dreamscroll.Task.Row.{any}
use dreamscroll.Task.Database.{World}
use dreamscroll.Backfill.Definition.{Backfill, BackfillTarget}
use dreamscroll.Backfill.Engine.{
  is_run_for, unsubmitted, insert_target, precedes, sort_targets, selection,
}

module _ (P : BackfillTarget → Type 0) where
  All-insert_target :
      (target : BackfillTarget) (targets : List BackfillTarget)
      → P target
      → All P targets
      → All P (insert_target target targets)
  unfolding insert_target
  All-insert_target target [] p ps = (p, tt)
  All-insert_target target (first ∷ targets) p ps =
      by_order (precedes first target) (All-insert_target target targets p ps.1)
    where
      by_order :
          (b : Bool)
          → All P (insert_target target targets)
          → All P (if b then first ∷ insert_target target targets else target ∷ first ∷ targets)
      by_order true later = (ps.0, later)
      by_order false later = (p, ps)

  All-sort_targets : (targets : List BackfillTarget) → All P targets → All P (sort_targets targets)
  unfolding sort_targets
  All-sort_targets [] ps = tt
  All-sort_targets (target ∷ targets) ps =
      All-insert_target target (sort_targets targets) ps.0 (All-sort_targets targets ps.1)

  All-take : (n : ℕ) (targets : List BackfillTarget) → All P targets → All P (take n targets)
  All-take zero targets ps = tt
  All-take (suc n) [] ps = tt
  All-take (suc n) (target ∷ targets) ps = (ps.0, All-take n targets ps.1)

  All-unsubmitted :
      (submitted : BackfillTarget → Bool) (targets : List BackfillTarget)
      → All P targets
      → All (λ x. P x × (submitted x ≡ false)) (unsubmitted submitted targets)
  unfolding unsubmitted
  All-unsubmitted submitted [] ps = tt
  All-unsubmitted submitted (target ∷ targets) ps =
      by_test (submitted target) refl (All-unsubmitted submitted targets ps.1)
    where
      by_test :
          (b : Bool)
          → submitted target ≡ b
          → All (λ x. P x × (submitted x ≡ false)) (unsubmitted submitted targets)
          → All
              (λ x. P x × (submitted x ≡ false))
              (if b then unsubmitted submitted targets else target ∷ unsubmitted submitted targets)
      by_test true e later = later
      by_test false e later = ((ps.0, e), later)

insert_target-cons :
    (target : BackfillTarget) (targets : List BackfillTarget)
    → insert_target target targets ≡ []
    → ⊥
unfolding insert_target
insert_target-cons target [] h = cc
insert_target-cons target (first ∷ targets) h = by_order (precedes first target) h
  where
    by_order :
        (b : Bool)
        → (if b then first ∷ insert_target target targets else target ∷ first ∷ targets) ≡ []
        → ⊥
    by_order true h = cc
    by_order false h = cc

none_sorted : (targets : List BackfillTarget) → sort_targets targets ≡ [] → targets ≡ []
unfolding sort_targets
none_sorted [] h = refl
none_sorted (target ∷ targets) h = absurd (insert_target-cons target (sort_targets targets) h)

none_taken : (n : ℕ) (targets : List BackfillTarget) → 0 < n → take n targets ≡ [] → targets ≡ []
none_taken zero targets p h = absurd (omega arith)
none_taken (suc n) [] p h = refl
none_taken (suc n) (target ∷ targets) p h = cc

none_unsubmitted :
    (submitted : BackfillTarget → Bool) (targets : List BackfillTarget)
    → unsubmitted submitted targets ≡ []
    → All (λ x. submitted x ≡ true) targets
unfolding unsubmitted
none_unsubmitted submitted [] h = tt
none_unsubmitted submitted (target ∷ targets) h =
    by_test (submitted target) refl h (none_unsubmitted submitted targets)
  where
    by_test :
        (b : Bool)
        → submitted target ≡ b
        → (if b then unsubmitted submitted targets else target ∷ unsubmitted submitted targets) ≡ []
        → (unsubmitted submitted targets ≡ [] → All (λ x. submitted x ≡ true) targets)
        → All (λ x. submitted x ≡ true) (target ∷ targets)
    by_test true e k later = (e, later k)
    by_test false e k later = cc

module _ {T : Type 0} (t : Task T) (backfill : Backfill T) where
  -- A target has a run of this backfill in the table.
  abbrev pub has_run : World → BackfillTarget → Bool
  has_run w target = any (is_run_for backfill.id t.task_type t.entity_type target) w.rows

  -- At most `limit` targets are selected, each a candidate, in that it has each property that all
  -- candidates have, and none with a run of this backfill.
  pub selection-unsubmitted :
      (P : BackfillTarget → Type 0) (limit : ℕ) (w : World)
      → All P (backfill.targets w)
      → (length (selection t backfill limit w) ≤ limit)
        × All (λ target. P target × (has_run w target ≡ false)) (selection t backfill limit w)
  unfolding selection
  selection-unsubmitted P limit w ps = (
    length-take-le limit (sort_targets (unsubmitted (has_run w) (backfill.targets w))),
    All-take (λ target. P target × (has_run w target ≡ false)) limit
        (sort_targets (unsubmitted (has_run w) (backfill.targets w)))
        (All-sort_targets (λ target. P target × (has_run w target ≡ false))
          (unsubmitted (has_run w) (backfill.targets w))
          (All-unsubmitted P (has_run w) (backfill.targets w) ps)),
  )

  -- A pump that selects nothing, at a positive limit, leaves no work behind: every candidate has a
  -- run of this backfill.
  pub selection-dry :
      (limit : ℕ) (w : World)
      → 0 < limit
      → selection t backfill limit w ≡ []
      → All (λ target. has_run w target ≡ true) (backfill.targets w)
  unfolding selection
  selection-dry limit w positive h =
      none_unsubmitted (has_run w) (backfill.targets w)
        (none_sorted (unsubmitted (has_run w) (backfill.targets w)) (none_taken limit _ positive h))
