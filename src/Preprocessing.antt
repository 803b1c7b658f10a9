-- ===== src/Preprocessing.antt =====
-- The preprocessing pipeline (backend/app/services/preprocessing_service.py and
-- preprocessing_executor.py). An image and the operations of OpenCV are parameters: an operation
-- gives an image or raises with a message. The times of the stages, and the size and the colours of
-- the image in the answer, are left out.
pub mod Summary
mod Tests
use aegis_platform_server_te.Prelude.{
  ℕ, suc, ◌+◌, ◌-◌, Bool, true, false, not, ◌||◌, Option, none, some, List, [], ◌∷◌, ◌++◌, String,
  ◌==◌, length, if◌then◌else◌, add_row,
}
use mathlib.Core.List.{map}

pub data Attempt (Image : Type 0) : Type 0 where
  returned : Image → Attempt Image
  raised : String → Attempt Image

pub record StageResult : Type 0 where
  pub stage_name : String
  pub executed : Bool
  pub success : Bool
  pub message : String

-- `VisionPreprocessingService`: its stages, in the order of their registration.
abbrev pub Stages : Type 0 → Type 0
Stages Image = List (String × (Image → Image))

module _ {Image : Type 0} where
  unfoldable pub register_stage : String → (Image → Image) → Stages Image → Stages Image
  register_stage name stage stages = add_row (name, stage) stages

  -- `_register_default_pipeline`.
  unfoldable pub default_pipeline : Stages Image
  unfolding register_stage
  default_pipeline = register_stage "identity" (λ image. image) []

  unfoldable pub execute_stages : Stages Image → Image → Image
  execute_stages [] image = image
  execute_stages ((name, stage) ∷ stages) image = execute_stages stages (stage image)

  abbrev pub clear_pipeline : Stages Image → Stages Image
  clear_pipeline stages = []

  abbrev pub registered_stages : Stages Image → List String
  registered_stages stages = map (λ (s : String × (Image → Image)). s.0) stages

-- `ImagePreprocessingRequest`.
pub record Request : Type 0 where
  pub filename : String
  pub apply_brightness : Bool
  pub apply_contrast : Bool
  pub apply_grayscale : Bool
  pub resize_width : Option ℕ
  pub resize_height : Option ℕ

-- `ImageEnhancement`.
pub record Enhancement (Image : Type 0) : Type 0 where
  pub normalize_brightness : Image → Attempt Image
  pub enhance_contrast : Image → Attempt Image
  pub convert_to_grayscale : Image → Attempt Image
  pub resize_image : Option ℕ → Option ℕ → Image → Attempt Image

pub record Stage (Image : Type 0) : Type 0 where
  pub name : String
  pub enabled : Bool
  pub operation : Image → Attempt Image

abbrev pub is_given : Option ℕ → Bool
is_given none = false
is_given (some n) = true

-- What the loop over the built-in stages carries.
pub record Progress (Image : Type 0) : Type 0 where
  pub image : Image
  pub stage_results : List StageResult
  pub failed_stages : ℕ

abbrev pub stage_result : String → Bool → String → StageResult
stage_result name success message = record {
  stage_name = name;
  executed = true;
  success = success;
  message = message;
}

module _ {Image : Type 0} where
  abbrev pub built_in_stages : Enhancement Image → Request → List (Stage Image)
  built_in_stages ops request =
      record {
        name = "brightness_normalization";
        enabled = request.apply_brightness;
        operation = ops.normalize_brightness;
      }
      ∷ record {
        name = "contrast_enhancement";
        enabled = request.apply_contrast;
        operation = ops.enhance_contrast;
      }
      ∷ record {
        name = "grayscale_conversion";
        enabled = request.apply_grayscale;
        operation = ops.convert_to_grayscale;
      }
      ∷ record {
        name = "resize";
        enabled = is_given request.resize_width || is_given request.resize_height;
        operation = ops.resize_image request.resize_width request.resize_height;
      }
      ∷ []

  -- One stage that is enabled: its image, or the image as it was and a failure.
  unfoldable pub attempted : String → Attempt Image → Progress Image → Progress Image
  attempted name (returned image) p = record {
    image = image;
    stage_results = add_row (stage_result name true "Completed") p.stage_results;
    failed_stages = p.failed_stages;
  }
  attempted name (raised message) p = record {
    image = p.image;
    stage_results = add_row (stage_result name false message) p.stage_results;
    failed_stages = p.failed_stages + 1;
  }

  unfoldable pub run_stage : Stage Image → Progress Image → Progress Image
  unfolding attempted
  run_stage stage p = if stage.enabled then attempted stage.name (stage.operation p.image) p else p

  unfoldable pub run_stages : List (Stage Image) → Progress Image → Progress Image
  run_stages [] p = p
  run_stages (stage ∷ stages) p = run_stages stages (run_stage stage p)

-- `PipelineExecutionSummary` and the parts of the answer that are kept.
pub record Response (Image : Type 0) : Type 0 where
  pub status : String
  pub filename : String
  pub image : Image
  pub stages : List StageResult
  pub total_stages : ℕ
  pub successful_stages : ℕ
  pub failed_stages : ℕ

abbrev pub registered_result : String → StageResult
registered_result name = stage_result name true "Registered stage"

module _ {Image : Type 0} where
  abbrev pub all_results : Progress Image → List String → List StageResult
  all_results p names = p.stage_results ++ map registered_result names

  -- `load_image` has given the image, or its error has left the executor before.
  unfoldable pub execute : Enhancement Image → Stages Image → Request → Image → Response Image
  execute ops stages request loaded =
      let p =
        run_stages (built_in_stages ops request)
          (record { image = loaded; stage_results = []; failed_stages = 0 }) in
      let results = all_results p (registered_stages stages) in
      record {
        status = if p.failed_stages == 0 then "success" else "partial_success";
        filename = request.filename;
        image = p.image;
        stages = results;
        total_stages = length results;
        successful_stages = length results - p.failed_stages;
        failed_stages = p.failed_stages;
      }
