-- ===== src/Tests/Compact.antt =====
-- A snapshot of two segments under a limit of one.
use syntext.Prelude.{ℕ, zero, suc, ◌+◌, ◌^◌, ◌<◌, ◌≤◌, ◌≡◌, refl, Bool, false, some, [], ◌∷◌, arith}
use syntext.Index.CompactPlan.{
  PlanInput, SegmentInfo, CompactionPlan, CompactionReason, max, deleted_bytes, sum_from, sum,
  live_snapshot_bytes_from, partition_point, batch_size_for_plan, make_plan, total_docs,
  suffix_start_for, target_segments_for, plan, forced_plan,
}
use syntext.Index.CompactBounds.{SoundPlan, forced_plan-SoundPlan, plan-max_segments}

abbrev segment : ℕ → SegmentInfo
segment base = record {
  base_id = base;
  doc_count = 5;
  doc_bytes = some 100;
  doc_size = λ local. some 20;
}

abbrev input : PlanInput
input = record {
  segments = segment 0 ∷ segment 5 ∷ [];
  delete_set = 6 ∷ [];
  overlay_doc_sizes = 7 ∷ [];
  next_file_id = 11;
  live_path_count = 10;
  max_segments = 1;
}

fits : (s : ℕ) → live_snapshot_bytes_from input s + max input.max_segments 1 < 2 ^ 64
unfolding live_snapshot_bytes_from sum_from sum deleted_bytes
fits zero = omega arith
fits (suc zero) = omega arith
fits (suc (suc s)) = omega arith

abbrev never : ℕ → ℕ → Bool
never overlay base = false

abbrev whole : CompactionPlan
whole = record {
  reason = CompactionReason.segment_limit;
  suffix_start = 0;
  batch_size_bytes = 268435456;
  target_segments = 1;
}

plan_run : plan never input ≡ some whole
unfolding plan make_plan batch_size_for_plan live_snapshot_bytes_from sum_from sum deleted_bytes
    total_docs suffix_start_for target_segments_for partition_point
plan_run = refl

forced_run : forced_plan never input ≡ some whole
unfolding forced_plan
forced_run = rw plan_run refl

forced_plan-SoundPlan_example : SoundPlan input whole
forced_plan-SoundPlan_example = forced_plan-SoundPlan input never fits whole forced_run

plan-max_segments_example : 0 + 1 ≤ 1
plan-max_segments_example = plan-max_segments input never whole refl plan_run
