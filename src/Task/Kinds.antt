-- ===== src/Task/Kinds.antt =====
-- The three concrete tasks: src/logic/illuminate.rs, src/logic/spark.rs, src/logic/search_index.rs.
-- The serialization of a task is a parameter.
use dreamscroll.Base.{Bool, true, Option, none, List}
use dreamscroll.Base.Words.{I32}
use dreamscroll.Base.Text.{Text, codes}
use dreamscroll.Base.Results.{Result}
use dreamscroll.Task.Definition.{Task}

-- src/illumination/version.rs
pub data IlluminationVersion : Type 0 where
  v1 v2 : IlluminationVersion

pub record IlluminationTask : Type 0 where
  pub capture_id : I32
  pub entity_owner_id : I32
  pub model_id : Text
  pub prompt_version : IlluminationVersion
  pub thinking_level : Option Text
  pub persist_projection : Bool

unfoldable pub new_illumination_task : I32 → I32 → Text → IlluminationVersion → IlluminationTask
new_illumination_task capture_id entity_owner_id model_id prompt_version = record {
  capture_id = capture_id;
  entity_owner_id = entity_owner_id;
  model_id = model_id;
  prompt_version = prompt_version;
  thinking_level = none;
  persist_projection = true;
}

pub record SparkTask : Type 0 where
  pub spark_id : I32
  pub entity_owner_id : I32
  pub capture_ids : List I32

pub record SearchIndexTask : Type 0 where
  pub capture_id : I32
  pub entity_owner_id : I32

abbrev pub illumination_task : (IlluminationTask → Result Text Text) → Task IlluminationTask
illumination_task payload = record {
  task_type = codes "illuminate";
  entity_type = codes "capture";
  entity_id = λ t. t.capture_id;
  entity_owner_id = λ t. t.entity_owner_id;
  payload = payload;
}

abbrev pub spark_task : (SparkTask → Result Text Text) → Task SparkTask
spark_task payload = record {
  task_type = codes "spark";
  entity_type = codes "spark";
  entity_id = λ t. t.spark_id;
  entity_owner_id = λ t. t.entity_owner_id;
  payload = payload;
}

abbrev pub search_index_task : (SearchIndexTask → Result Text Text) → Task SearchIndexTask
search_index_task payload = record {
  task_type = codes "search_index";
  entity_type = codes "capture";
  entity_id = λ t. t.capture_id;
  entity_owner_id = λ t. t.entity_owner_id;
  payload = payload;
}
