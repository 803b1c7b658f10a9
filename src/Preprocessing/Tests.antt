-- ===== src/Preprocessing/Tests.antt =====
-- The theorem on the pipeline, with a resize that raises.
use aegis_platform_server_te.Prelude.{
  ℕ, ◌+◌, ◌≡◌, true, false, none, some, ◌==◌, length, if◌then◌else◌, count_where,
}
use aegis_platform_server_te.Preprocessing.{
  Enhancement, returned, raised, Request, execute, default_pipeline,
}
use aegis_platform_server_te.Preprocessing.Summary.{has_failed, execute-summary}

abbrev ops : Enhancement ℕ
ops = record {
  normalize_brightness = λ image. returned (image + 1);
  enhance_contrast = λ image. returned (image + 2);
  convert_to_grayscale = λ image. returned (image + 4);
  resize_image = λ w h image. raised "bad size";
}

abbrev request : Request
request = record {
  filename = "a.png";
  apply_brightness = true;
  apply_contrast = false;
  apply_grayscale = true;
  resize_width = some 10;
  resize_height = none;
}

execute-summary_test :
    let answer = execute ops default_pipeline request 100 in
    (answer.failed_stages ≡ count_where has_failed answer.stages)
    × (answer.total_stages ≡ length answer.stages)
    × (answer.successful_stages + answer.failed_stages ≡ answer.total_stages)
    × (answer.status
        ≡ (if count_where has_failed answer.stages == 0 then "success" else "partial_success"))
execute-summary_test = execute-summary ops default_pipeline request 100
