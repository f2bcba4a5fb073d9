-- ===== src/Examples/Projections.antt =====
-- A small input for the theorems about src/api/service/insert_illumination.rs.
use dreamscroll.Auth.{user_id}
use dreamscroll.Api.Captures.{remove, delete_capture}
use dreamscroll.Api.Captures.Foreign.{SameForeign}
use dreamscroll.Api.Captures.Isolation.{deletes, call, call-SameForeign}
use dreamscroll.Examples.{alice}
use dreamscroll.Base.{some, true}
use dreamscroll.Base.Results.{Result}
use dreamscroll.Task.Kinds.{IlluminationTask, v2}
use dreamscroll.Task.Definition.{TaskRun}
use dreamscroll.Api.Service.Records.{insert_illumination_raw}
use dreamscroll.Logic.Illuminate.{InferenceOutcome, LogicState, first, exec}
use dreamscroll.Logic.Illuminate.Kept.{IsKept, asked, exec-IsKept}
use dreamscroll.Api.Service.Store.{InferenceMetadata, execute}
use dreamscroll.Base.{◌≡◌, refl, ◌∷◌, ◌++◌, [], none}
use dreamscroll.Base.Text.{Text, codes, text_eq}
use dreamscroll.Base.Results.{ok}
use dreamscroll.Task.Database.{executed}
use dreamscroll.Api.Service.Store.{Db, Tables}
use dreamscroll.Api.Service.Store.Transactions.{Ends}
use dreamscroll.Api.Service.Projection.{CaptureInfo, Illumination, Entity, insert_illumination_v2}
use dreamscroll.Api.Service.Projection.Described.{IsProjection, insert_illumination_v2-IsProjection}
use dreamscroll.Api.Service.Projection.Retries.{insert_illumination_v2-retry}

abbrev capture : CaptureInfo
capture = record { id = 42; user_id = 1; medias = [] }

abbrev named : Text → Entity
named name = record {
  name = name;
  search_query = none;
  description = none;
  entity_type = codes "person";
  platform_link = some (record {
    platform = codes "reddit";
    display_name = some name;
    handle = some (codes "r/" ++ name);
    url = none;
  });
}

abbrev illumination : Illumination
illumination = record {
  summary = codes "a summary";
  details = [];
  suggested_searches = [];
  entities = named (codes "x") ∷ named (codes "y") ∷ [];
  raw_json = [];
}

abbrev to_markdown : Illumination → Text
to_markdown i = i.summary

abbrev empty : Db
empty = record {
  moments = λ n. record { elapsed = 1; fate = executed; report = [] };
  tick = 0;
  next_id = 9;
  next_meta_id = 3;
  tables = record {
    illuminations = [];
    knowledge_entities = [];
    search_index = [];
    illumination_raws = [];
    inference_metas = [];
    captures = [];
    medias = [];
    annotations = [];
  };
}

insert_illumination_v2-IsProjection_example :
    (final : Tables) × IsProjection capture to_markdown
      (codes "run")
      none
      illumination
      9
      empty.tables
      final
    × Ends empty.tables final
        (insert_illumination_v2 capture to_markdown (codes "run") none illumination empty)
insert_illumination_v2-IsProjection_example =
    insert_illumination_v2-IsProjection capture to_markdown (codes "run") none illumination empty

inserts :
    (insert_illumination_v2 capture to_markdown (codes "run") none illumination empty).0 ≡ ok tt
unfolding insert_illumination_v2 text_eq
inserts = refl

insert_illumination_v2-retry_example :
    (insert_illumination_v2 capture to_markdown
      (codes "run")
      none
      illumination
      (insert_illumination_v2 capture to_markdown (codes "run") none illumination empty).1).1.tables
    ≡ (insert_illumination_v2 capture to_markdown (codes "run") none illumination empty).1.tables
insert_illumination_v2-retry_example =
    insert_illumination_v2-retry capture to_markdown (codes "run") none illumination empty inserts

abbrev usage : InferenceMetadata
usage = record {
  tokens_in = some 10;
  tokens_in_cached = none;
  tokens_out = some 20;
  tokens_thought = none;
  provider_name = codes "provider";
  backend_name = codes "backend";
  model_id = codes "model";
  duration_ms = 900;
  params = codes "{}";
  provider_metadata = codes "{}";
}

abbrev answered : {A : Type 0} → A → Result Text (InferenceOutcome A)
answered a = ok (record { output = ok a; metadata = usage; http_status_code = some 200 })

-- One capture with a media, and models that always answer.
abbrev logic : LogicState
logic = record {
  load_captures = λ t ids. record capture { medias = 5 ∷ [] } ∷ [];
  illuminate_v1 = λ c model_id thinking_level. answered (codes "raw");
  illuminate_v2 = λ c model_id thinking_level. answered illumination;
  to_markdown = to_markdown;
}

abbrev illuminating : TaskRun IlluminationTask
illuminating = record {
  logical_id = codes "u1-illuminate-capture42";
  run_id = codes "run";
  run_number = 1;
  backfill_id = none;
  task = record {
    capture_id = 42;
    entity_owner_id = 1;
    model_id = codes "model";
    prompt_version = v2;
    thinking_level = none;
    persist_projection = true;
  };
}

illuminates : (exec logic illuminating 1 empty).0 ≡ ok tt
unfolding exec insert_illumination_v2 insert_illumination_raw execute text_eq
illuminates = refl

exec-IsKept_example :
    (c : CaptureInfo) × (first (logic.load_captures empty.tables (asked logic illuminating 1))
      ≡ some c)
    × IsKept logic illuminating 1 c empty.tables (exec logic illuminating 1 empty).1.tables
exec-IsKept_example = exec-IsKept logic illuminating 1 empty illuminates

-- The captures of two users.
abbrev two_users : Db
two_users = record empty {
  tables = record empty.tables {
    captures =
        record { id = 42; user_id = 1; created_at = 5; archived_at = none }
        ∷ record { id = 43; user_id = 2; created_at = 6; archived_at = none }
        ∷ [];
    annotations =
        record { user_id = 1; capture_id = 42 } ∷ record { user_id = 2; capture_id = 43 } ∷ [];
  };
}

call-SameForeign_example : SameForeign 1 two_users.tables (call alice 42 deletes two_users).1.tables
unfolding user_id
call-SameForeign_example = call-SameForeign alice 42 deletes two_users ((refl, tt), (tt, tt))

deletes_own :
    (call alice 42 deletes two_users).1.tables.annotations
    ≡ record { user_id = 2; capture_id = 43 } ∷ []
unfolding call delete_capture execute user_id remove
deletes_own = refl
