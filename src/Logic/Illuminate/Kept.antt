-- ===== src/Logic/Illuminate/Kept.antt =====
-- What a successful illumination leaves in the tables.
use mathlib.Core.Path.{subst}
use dreamscroll.Base.{
  ◌≡◌, refl, sym, ap, ◌∙◌, Bool, true, false, Option, none, some, List, [], ◌∷◌, inl, inr, ◌⊎◌,
}
use dreamscroll.Base.Words.{I32}
use dreamscroll.Base.Text.{Text, codes}
use dreamscroll.Base.Results.{Result, ok, err, map_err, Exec, continue-inv, lift, pure, raise}
use dreamscroll.Error.{ApiError, internal, with_inner_status_code}
use dreamscroll.Task.Kinds.{IlluminationTask, IlluminationVersion, v1, v2}
use dreamscroll.Task.Definition.{TaskRun}
use dreamscroll.Api.Service.Store.{Tables, Db, ticked}
use dreamscroll.Api.Service.Store.Transactions.{execute-ok, Ends-ok}
use dreamscroll.Api.Service.Projection.{CaptureInfo, Illumination, insert_illumination_v2}
use dreamscroll.Api.Service.Projection.Refinement.{projected, insert_illumination_v2-Ends}
use dreamscroll.Api.Service.Projection.Described.{IsProjection, projected-IsProjection}
use dreamscroll.Api.Service.Records.{insert_illumination_raw, record_inference}
use dreamscroll.Api.Service.Records.Stored.{
  find_raw, SameProjection, insert_illumination_raw-IsStored, record_inference-SameProjection,
}
use dreamscroll.Logic.Illuminate.{
  InferenceOutcome, LogicState, first, load_body, get_captures, output_of, recorded,
  after_inference, keep_v1, exec_v1, projects, keep_v2, exec_v2, exec_version, with_capture, exec,
}

map_err-inv : {E F A : Type 0} (f : E → F) (r : Result E A) (a : A) → map_err f r ≡ ok a → r ≡ ok a
map_err-inv f (ok b) a h = let e : b ≡ a = cc in ap ok e
map_err-inv f (err x) a h = cc

trans-SameProjection :
    {s t u : Tables} → SameProjection s t → SameProjection t u → SameProjection s u
trans-SameProjection p q = record {
  illuminations = p.illuminations ∙ q.illuminations;
  entities = p.entities ∙ q.entities;
  index = p.index ∙ q.index;
}

ok_same : {E A : Type 0} {a b : A} → ◌≡◌ {A = Result E A} (ok a) (ok b) → a ≡ b
ok_same h = cc

module _ (state : LogicState) (task_run : TaskRun IlluminationTask) (attempt : I32)
    (capture : CaptureInfo) where
  -- The run has a row of raw output, whose content is `raw`, for the first media of the capture.
  abbrev pub HasRaw : Option I32 → Text → Tables → Type 0
  HasRaw inference_meta_id raw t =
      (media_id : I32) × (others : List I32) × (capture.medias ≡ media_id ∷ others)
      × (find_raw task_run.run_id t.illumination_raws
          ≡ some (record {
            user_id = capture.user_id;
            capture_id = capture.id;
            media_id = media_id;
            task_run_id = task_run.run_id;
            inference_meta_id = inference_meta_id;
            content = raw;
          }))

  abbrev steps :
      {A : Type 0}
      → (Option I32 → A → Exec Db ApiError (Unit {0}))
      → InferenceOutcome A
      → Exec Db ApiError (Unit {0})
  steps = after_inference state task_run attempt capture

  -- Behind an inference, its output is kept, in a state in which the projections are untouched.
  after_inference-inv :
      {A : Type 0} (keep : Option I32 → A → Exec Db ApiError (Unit {0}))
      (inference : InferenceOutcome A) (db : Db)
      → (steps keep inference db).0 ≡ ok tt
      → (id : Option I32) × (a : A) × (now : Db) × (inference.output ≡ ok a)
        × (steps keep inference db ≡ keep id a now)
        × SameProjection now.tables db.tables
  unfolding after_inference output_of recorded lift
  after_inference-inv keep inference db h =
      let (id, now) =
        record_inference capture.user_id task_run.run_id attempt (codes "illuminate")
          inference.metadata db in
      let (a, told, same) = continue-inv (keep id) (output_of state inference now) tt h in
      (
        id,
        a,
        now,
        map_err-inv (λ error. with_inner_status_code inference.http_status_code (internal error))
            inference.output a told,
        same,
        record_inference-SameProjection capture.user_id task_run.run_id attempt (codes "illuminate")
            inference.metadata db,
      )

  -- What a successful run leaves of `s`: the raw output alone, or with the projection of it.
  pub data IsKept (s t : Tables) : Type 0 where
    raw_of_v1 :
        (inference : InferenceOutcome Text) (raw : Text) (id : Option I32)
        → task_run.task.prompt_version ≡ v1
        → state.illuminate_v1 capture task_run.task.model_id task_run.task.thinking_level
          ≡ ok inference
        → inference.output ≡ ok raw
        → HasRaw id raw t
        → SameProjection t s
        → IsKept s t
    raw_of_v2 :
        (inference : InferenceOutcome Illumination) (illumination : Illumination) (id : Option I32)
        → task_run.task.prompt_version ≡ v2
        → task_run.task.persist_projection ≡ false
        → state.illuminate_v2 capture task_run.task.model_id task_run.task.thinking_level
          ≡ ok inference
        → inference.output ≡ ok illumination
        → HasRaw id illumination.raw_json t
        → SameProjection t s
        → IsKept s t
    projection_of_v2 :
        (inference : InferenceOutcome Illumination) (illumination : Illumination) (id : Option I32)
        (between : Tables) (next_id : I32)
        → task_run.task.prompt_version ≡ v2
        → task_run.task.persist_projection ≡ true
        → state.illuminate_v2 capture task_run.task.model_id task_run.task.thinking_level
          ≡ ok inference
        → inference.output ≡ ok illumination
        → HasRaw id illumination.raw_json t
        → SameProjection between s
        → IsProjection capture state.to_markdown task_run.run_id id illumination next_id between t
        → IsKept s t

  exec_v1-IsKept :
      (db : Db)
      → task_run.task.prompt_version ≡ v1
      → (exec_v1 state task_run attempt capture db).0 ≡ ok tt
      → IsKept db.tables (exec_v1 state task_run attempt capture db).1.tables
  unfolding exec_v1 lift keep_v1
  exec_v1-IsKept db version h =
      let reply = state.illuminate_v1 capture task_run.task.model_id task_run.task.thinking_level in
      let keep = keep_v1 state task_run attempt capture in
      let (inference, answered, e1) = continue-inv (steps keep) (map_err internal reply, db) tt h in
      let done = sym (ap (λ x. x.0) e1) ∙ h in
      let (id, raw, now, output, e2, untouched) = after_inference-inv keep inference db done in
      let (media_id, others, first_media, stored) =
        insert_illumination_raw-IsStored capture task_run.run_id id raw now
          (sym (ap (λ x. x.0) e2) ∙ done) in
      subst (IsKept db.tables) (sym (ap (λ x. x.1.tables) (e1 ∙ e2))) (
        raw_of_v1 inference raw id version (map_err-inv internal reply inference answered) output
          (media_id, others, first_media, stored.raw_is)
          (trans-SameProjection stored.others untouched))

  projects-inv :
      (persist : Bool) (id : Option I32) (illumination : Illumination) (db : Db)
      → (projects state task_run attempt capture persist id illumination db).0 ≡ ok tt
      → (((persist ≡ false)
            × ((projects state task_run attempt capture persist id illumination db).1.tables
                ≡ db.tables))
          ⊎ ((persist ≡ true)
              × ((projects state task_run attempt capture persist id illumination db).1.tables
                  ≡ projected capture state.to_markdown task_run.run_id id illumination db.next_id
                      db.tables)))
  unfolding projects pure
  projects-inv false id illumination db h = inl (refl, refl)
  projects-inv true id illumination db h = inr (
    refl,
    Ends-ok _ _
        (insert_illumination_v2 capture state.to_markdown task_run.run_id id illumination db)
        (insert_illumination_v2-Ends capture state.to_markdown task_run.run_id id illumination db)
        h,
  )

  -- A projection keeps the raw outputs.
  HasRaw-projected :
      (id : Option I32) (illumination : Illumination) (next_id : I32) (raw : Text) (t : Tables)
      → HasRaw id raw t
      → HasRaw id raw
          (projected capture state.to_markdown task_run.run_id id illumination next_id t)
  unfolding projected
  HasRaw-projected id illumination next_id raw t h = h

  exec_v2-IsKept :
      (db : Db)
      → task_run.task.prompt_version ≡ v2
      → (exec_v2 state task_run attempt capture db).0 ≡ ok tt
      → IsKept db.tables (exec_v2 state task_run attempt capture db).1.tables
  unfolding exec_v2 lift keep_v2
  exec_v2-IsKept db version h =
      let reply = state.illuminate_v2 capture task_run.task.model_id task_run.task.thinking_level in
      let keep = keep_v2 state task_run attempt capture in
      let (inference, answered, e1) = continue-inv (steps keep) (map_err internal reply, db) tt h in
      let done = sym (ap (λ x. x.0) e1) ∙ h in
      let (id, illumination, now, output, e2, untouched) =
        after_inference-inv keep inference db done in
      let kept = sym (ap (λ x. x.0) e2) ∙ done in
      let rest =
        projects state task_run attempt capture task_run.task.persist_projection id illumination in
      let insert = insert_illumination_raw capture task_run.run_id id illumination.raw_json now in
      let (u, inserted, e3) = continue-inv (λ _. rest) insert tt kept in
      let (media_id, others, first_media, stored) =
        insert_illumination_raw-IsStored capture task_run.run_id id illumination.raw_json now
          inserted in
      let model = map_err-inv internal reply inference answered in
      let same = trans-SameProjection stored.others untouched in
      let after = insert.1 in
      subst (IsKept db.tables) (sym (ap (λ x. x.1.tables) (e1 ∙ e2 ∙ e3)))
        (elim (projects-inv task_run.task.persist_projection id illumination after
          (sym (ap (λ x. x.0) e3) ∙ kept)) [
            | inl (declines, t) ↦
                raw_of_v2 inference illumination id version declines model output
                  (
                    media_id,
                    others,
                    first_media,
                    ap (λ s. find_raw task_run.run_id s.illumination_raws) t ∙ stored.raw_is,
                  )
                  (subst (λ s. SameProjection s db.tables) (sym t) same)
            | inr (asks, t) ↦
                projection_of_v2 inference illumination id after.tables after.next_id version asks
                  model output
                  (subst (HasRaw id illumination.raw_json) (sym t) (
                    HasRaw-projected id illumination after.next_id illumination.raw_json
                      after.tables (media_id, others, first_media, stored.raw_is)))
                  same
                  (subst
                    (IsProjection capture state.to_markdown task_run.run_id id illumination
                      after.next_id after.tables)
                    (sym t)
                    (projected-IsProjection capture state.to_markdown task_run.run_id id
                      illumination after.next_id after.tables))
          ])

  exec_version-IsKept :
      (version : IlluminationVersion) (db : Db)
      → task_run.task.prompt_version ≡ version
      → (exec_version state task_run attempt capture version db).0 ≡ ok tt
      → IsKept db.tables (exec_version state task_run attempt capture version db).1.tables
  unfolding exec_version
  exec_version-IsKept v1 db h done = exec_v1-IsKept db h done
  exec_version-IsKept v2 db h done = exec_v2-IsKept db h done

module _ (state : LogicState) (task_run : TaskRun IlluminationTask) (attempt : I32) where
  abbrev pub asked : Option (List I32)
  asked = some (task_run.task.capture_id ∷ [])

  first_some :
      (o : Option CaptureInfo) (db : Db)
      → (with_capture state task_run attempt o db).0 ≡ ok tt
      → (capture : CaptureInfo) × (o ≡ some capture)
        × IsKept state task_run attempt capture db.tables
            (with_capture state task_run attempt o db).1.tables
  unfolding with_capture raise
  first_some none db h = cc
  first_some (some capture) db h = (
    capture,
    refl,
    exec_version-IsKept state task_run attempt capture task_run.task.prompt_version db refl h,
  )

  -- An illumination that succeeds has found its capture, has an answer of the model, and has stored
  -- the raw output of that answer, as the content of the run's row, for the first media of the
  -- capture. Version 2 has stored the projection of the answer where the task asks for it: its rows
  -- and no others for the run. Otherwise the projections stay.
  pub exec-IsKept :
      (db : Db)
      → (exec state task_run attempt db).0 ≡ ok tt
      → (capture : CaptureInfo) × (first (state.load_captures db.tables asked) ≡ some capture)
        × IsKept state task_run attempt capture db.tables (exec state task_run attempt db).1.tables
  unfolding exec get_captures load_body ticked
  exec-IsKept db h =
      let (fetch, loads, e) =
        continue-inv (λ fetch. with_capture state task_run attempt (first fetch))
          (get_captures state asked db) tt h in
      let (loaded, same) = execute-ok (load_body state asked) db fetch loads in
      let now = (get_captures state asked db).1 in
      let (capture, found, kept) = first_some (first fetch) now (sym (ap (λ x. x.0) e) ∙ h) in
      (
        capture,
        ap first (ok_same loaded) ∙ found,
        subst
            (λ t. IsKept state task_run attempt capture t (exec state task_run attempt db).1.tables)
            (ap (λ d. d.tables) same)
            (subst (IsKept state task_run attempt capture now.tables) (sym (ap (λ x. x.1.tables) e))
              kept),
      )
