-- ===== src/Kernel/Tests/Values.antt =====
-- A submitted value, one container deep.
use shared_mind.Base.{◌≡◌, refl, ltb, true}
use shared_mind.Kernel.Depth.{json_depth_exceeds}
use shared_mind.Kernel.Depth.Nesting.{nesting, json_depth_exceeds-nesting}
use shared_mind.Kernel.Tests.Data.{submitted}

submitted_is_nested : ltb 0 (nesting submitted) ≡ true
unfolding nesting
submitted_is_nested = refl

json_depth_exceeds-nesting_example : json_depth_exceeds submitted 0 ≡ ltb 0 (nesting submitted)
json_depth_exceeds-nesting_example = json_depth_exceeds-nesting submitted 0
