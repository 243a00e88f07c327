-- ===== src/Workload.antt =====
-- Workload records of benchmarks/serving_common.py: the schema's constants, the validator of one
-- JSONL record and the reader of a workload file. Generation is in the children.
pub mod Decimal
pub mod Random
pub mod Arrivals
pub mod Record
pub mod Generate
pub mod Reader
mod Examples
use llm_inference_optimizati.Base.{String, List, [], ◌∷◌}

abbrev pub workload_schema_version : String
workload_schema_version = "serving-workload-v1"

abbrev pub manifest_schema_version : String
manifest_schema_version = "serving-workload-manifest-v1"

-- `WORKLOAD_CLASSES`
abbrev pub workload_classes : List String
workload_classes =
    "chat" ∷ "shared_system_prompt" ∷ "coding_agent" ∷ "mixed" ∷ "overload" ∷ "burst" ∷ []

-- `ARRIVAL_MODELS`
abbrev pub arrival_models : List String
arrival_models = "fixed_interval" ∷ "burst" ∷ "exponential" ∷ "manual" ∷ []
