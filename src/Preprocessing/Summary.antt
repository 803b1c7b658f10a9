-- ===== src/Preprocessing/Summary.antt =====
-- `execute` of backend/app/services/preprocessing_executor.py: its summary against its stages.
use aegis_platform_server_te.Prelude.{
  ◌+◌, ◌≡◌, refl, sym, ap, ◌∙◌, inl, inr, Bool, true, false, not, List, [], ◌∷◌, ◌++◌, String, ◌==◌,
  arith, length, if◌then◌else◌, Bool-cases, count_where, count-add_row, count-length_le,
}
use mathlib.Core.List.{map}
use aegis_platform_server_te.Preprocessing.{
  Attempt, returned, raised, Stage, StageResult, Stages, stage_result, Enhancement, Request,
  Progress, attempted, run_stage, run_stages, registered_result, all_results, registered_stages,
  built_in_stages, execute,
}

abbrev pub has_failed : StageResult → Bool
has_failed r = not r.success

module _ {Image : Type 0} where
  -- The counter of failures is the number of the results that failed.
  abbrev pub IsCounted : Progress Image → Type 0
  IsCounted p = p.failed_stages ≡ count_where has_failed p.stage_results

  attempted-IsCounted :
      (name : String) (a : Attempt Image) (p : Progress Image)
      → IsCounted p
      → IsCounted (attempted name a p)
  unfolding attempted
  attempted-IsCounted name (returned image) p c =
      omega
        (arith, c, count-add_row has_failed (stage_result name true "Completed") p.stage_results)
  attempted-IsCounted name (raised message) p c =
      omega (arith, c, count-add_row has_failed (stage_result name false message) p.stage_results)

  run_stage-IsCounted :
      (stage : Stage Image) (p : Progress Image) → IsCounted p → IsCounted (run_stage stage p)
  unfolding run_stage
  run_stage-IsCounted stage p c = elim (Bool-cases stage.enabled) [
    | inl e ↦ rw e (attempted-IsCounted stage.name (stage.operation p.image) p c)
    | inr e ↦ rw e c
  ]

  run_stages-IsCounted :
      (stages : List (Stage Image)) (p : Progress Image)
      → IsCounted p
      → IsCounted (run_stages stages p)
  unfolding run_stages
  run_stages-IsCounted [] p c = c
  run_stages-IsCounted (stage ∷ stages) p c =
      run_stages-IsCounted stages (run_stage stage p) (run_stage-IsCounted stage p c)

registered_pass :
    (results : List StageResult) (names : List String)
    → count_where has_failed (results ++ map registered_result names)
      ≡ count_where has_failed results
unfolding count_where
registered_pass [] [] = refl
registered_pass [] (n ∷ names) = omega (arith, registered_pass [] names)
registered_pass (r ∷ results) names =
    ap (λ n. (if has_failed r then 1 else 0) + n) (registered_pass results names)

module _ {Image : Type 0} where
  -- The summary of a run agrees with the stages that it lists: the failed ones are counted, the
  -- others are the successful ones, and the status is success exactly when none failed. An operation
  -- that raises never ends the run.
  pub execute-summary :
      (ops : Enhancement Image) (stages : Stages Image) (request : Request) (loaded : Image)
      → let answer = execute ops stages request loaded in
        (answer.failed_stages ≡ count_where has_failed answer.stages)
        × (answer.total_stages ≡ length answer.stages)
        × (answer.successful_stages + answer.failed_stages ≡ answer.total_stages)
        × (answer.status
            ≡ (if count_where has_failed answer.stages == 0 then "success" else "partial_success"))
  unfolding execute
  execute-summary ops stages request loaded =
      let p =
        run_stages (built_in_stages ops request)
          (record { image = loaded; stage_results = []; failed_stages = 0 }) in
      let counted =
        run_stages-IsCounted (built_in_stages ops request)
          (record { image = loaded; stage_results = []; failed_stages = 0 })
          (unfold count_where in refl) in
      let all = registered_pass p.stage_results (registered_stages stages) in
      let failures = counted ∙ sym all in
      (
        failures,
        refl,
        omega (
          arith,
          failures,
          count-length_le has_failed (all_results p (registered_stages stages)),
        ),
        rw (failures) refl,
      )
