-- ===== src/Index/CompactPlan.antt =====
-- src/index/compact_plan.rs: whether, where and how much to compact. Of the snapshot there is what
-- the planner reads. Sums of u64 wrap; the comparison of the overlay's share, in floating point,
-- is a parameter.
use syntext.Prelude.{
  ℕ, zero, suc, ◌+◌, ◌-◌, ◌*◌, ◌/◌, ◌%◌, ◌^◌, min, Bool, not, ◌&&◌, ◌||◌, Option, none, some, List,
  [], ◌∷◌, ltb, leb, ◌==◌, if◌then◌else◌, is_empty, length, contains,
}

pub data CompactionReason : Type 0 where
  overlay_ratio segment_limit file_id_bloat explicit_request : CompactionReason

pub record CompactionPlan : Type 0 where
  pub reason : CompactionReason
  pub suffix_start : ℕ
  pub batch_size_bytes : ℕ
  pub target_segments : ℕ

-- A base segment with its base id, which every segment has: `doc_size` is the size in the entry of a local document, where it can be read.
pub record SegmentInfo : Type 0 where
  pub base_id : ℕ
  pub doc_count : ℕ
  pub doc_bytes : Option ℕ
  pub doc_size : ℕ → Option ℕ

pub record PlanInput : Type 0 where
  pub segments : List SegmentInfo
  -- In ascending order.
  pub delete_set : List ℕ
  pub overlay_doc_sizes : List ℕ
  pub next_file_id : ℕ
  pub live_path_count : ℕ
  pub max_segments : ℕ

abbrev pub max : ℕ → ℕ → ℕ
max a b = if ltb a b then b else a

abbrev pub saturating_u64 : ℕ → ℕ
saturating_u64 n = min n (2 ^ 64 - 1)

abbrev pub size_or_zero : Option ℕ → ℕ
size_or_zero none = 0
size_or_zero (some n) = n

-- The bytes of the segment's documents that are deleted; the walk stops behind the segment.
unfoldable pub deleted_bytes : SegmentInfo → List ℕ → ℕ
deleted_bytes seg [] = 0
deleted_bytes seg (d ∷ ds) =
    let rest = deleted_bytes seg ds in
    if ltb d seg.base_id
    then rest
    else if leb ((seg.base_id + seg.doc_count) % 2 ^ 32) d
    then 0
    else (size_or_zero (seg.doc_size (d - seg.base_id)) + rest) % 2 ^ 64

-- Documents `local` and on, `n` of them, where the segment does not know its bytes.
unfoldable pub live_docs : SegmentInfo → List ℕ → ℕ → ℕ → ℕ
live_docs seg deletes local zero = 0
live_docs seg deletes local (suc n) =
    let rest = live_docs seg deletes (suc local) n in
    if leb (2 ^ 32) (seg.base_id + local) || contains (seg.base_id + local) deletes
    then rest
    else (size_or_zero (seg.doc_size local) + rest) % 2 ^ 64

abbrev pub live_bytes_of : SegmentInfo → List ℕ → Option ℕ → ℕ
live_bytes_of seg deletes (some total) = total - deleted_bytes seg deletes
live_bytes_of seg deletes none = live_docs seg deletes 0 seg.doc_count

abbrev pub live_segment_bytes : List ℕ → SegmentInfo → ℕ
live_segment_bytes deletes seg = live_bytes_of seg deletes seg.doc_bytes

-- `skip(n)` and the sum.
unfoldable pub sum_from : (SegmentInfo → ℕ) → ℕ → List SegmentInfo → ℕ
sum_from bytes n [] = 0
sum_from bytes (suc n) (s ∷ ss) = sum_from bytes n ss
sum_from bytes zero (s ∷ ss) = (bytes s + sum_from bytes zero ss) % 2 ^ 64

unfoldable pub sum : List ℕ → ℕ
sum [] = 0
sum (n ∷ ns) = (n + sum ns) % 2 ^ 64

unfoldable pub live_snapshot_bytes_from : PlanInput → ℕ → ℕ
live_snapshot_bytes_from input suffix_start = saturating_u64 (
    sum_from (live_segment_bytes input.delete_set) suffix_start input.segments
    + sum input.overlay_doc_sizes)

-- `partition_point(|base_id| base_id <= d)`: how many base ids stand before the first that is
-- greater.
unfoldable pub partition_point : List SegmentInfo → ℕ → ℕ
partition_point [] d = 0
partition_point (s ∷ ss) d =
    let rest = partition_point ss d in if leb s.base_id d then suc rest else 0

abbrev pub first_deleted_of : List SegmentInfo → List ℕ → Option ℕ
first_deleted_of segments [] = none
first_deleted_of segments (d ∷ ds) = some (partition_point segments d - 1)

abbrev pub first_deleted_segment : PlanInput → Option ℕ
first_deleted_segment input = first_deleted_of input.segments input.delete_set

abbrev pub unwrap_or : Option ℕ → ℕ → ℕ
unwrap_or none d = d
unwrap_or (some n) d = n

abbrev pub batch_size_bytes : ℕ
batch_size_bytes = 256 * 1024 * 1024

unfoldable pub batch_size_for_plan : PlanInput → ℕ → ℕ → ℕ
batch_size_for_plan input suffix_start target_segments =
    let total_bytes = live_snapshot_bytes_from input suffix_start in
    let targets = max target_segments 1 in
    let target = saturating_u64 (total_bytes + (targets - 1)) / targets in
    if total_bytes == 0 then batch_size_bytes else max (max target batch_size_bytes) 1

unfoldable pub make_plan : PlanInput → CompactionReason → ℕ → ℕ → CompactionPlan
make_plan input reason suffix_start target_segments = record {
  reason = reason;
  suffix_start = suffix_start;
  batch_size_bytes = batch_size_for_plan input suffix_start (max target_segments 1);
  target_segments = max target_segments 1;
}

unfoldable pub total_docs : List SegmentInfo → ℕ
total_docs [] = 0
total_docs (s ∷ ss) = s.doc_count + total_docs ss

-- `ratio_exceeded overlay base` is `overlay as f64 / base as f64 > 0.10`.
module _ (ratio_exceeded : ℕ → ℕ → Bool) where
  abbrev pub overlay_ratio_exceeded : PlanInput → Bool
  overlay_ratio_exceeded input =
      let base_docs = total_docs input.segments in
      let overlay_docs = length input.overlay_doc_sizes in
      if base_docs == 0 then ltb 0 overlay_docs else ratio_exceeded overlay_docs base_docs

  abbrev pub segment_limit_exceeded : PlanInput → Bool
  segment_limit_exceeded input = ltb (max input.max_segments 1) (length input.segments)

  abbrev pub file_ids_bloated : PlanInput → Bool
  file_ids_bloated input =
      ltb 1024 input.next_file_id
      && ltb (saturating_u64 (input.live_path_count * 4)) input.next_file_id

  -- The suffix and the number of segments where one of the two triggers fires.
  unfoldable pub suffix_start_for : PlanInput → ℕ
  suffix_start_for input =
      let segment_count = length input.segments in
      let delete_start = unwrap_or (first_deleted_segment input) segment_count in
      let limit_start =
        if segment_limit_exceeded input
        then min (max input.max_segments 1 - 1) segment_count
        else segment_count in
      min delete_start limit_start

  unfoldable pub target_segments_for : PlanInput → ℕ
  target_segments_for input =
      if segment_limit_exceeded input
      then max (max input.max_segments 1 - suffix_start_for input) 1
      else 1

  unfoldable pub plan : PlanInput → Option CompactionPlan
  plan input =
      let overlay = overlay_ratio_exceeded input in
      let limit = segment_limit_exceeded input in
      if not overlay && (not limit && not (file_ids_bloated input))
      then none
      else if not overlay && not limit
      then some (make_plan input CompactionReason.file_id_bloat 0 1)
      else some (
          make_plan input
            (if overlay then CompactionReason.overlay_ratio else CompactionReason.segment_limit)
            (suffix_start_for input) (target_segments_for input))

  abbrev pub plan_on_request : PlanInput → Option CompactionPlan → Option CompactionPlan
  plan_on_request input (some p) = some p
  plan_on_request input none =
      if is_empty input.overlay_doc_sizes && is_empty input.delete_set
      then none
      else some (
          make_plan input CompactionReason.explicit_request
            (unwrap_or (first_deleted_segment input) (length input.segments)) 1)

  unfoldable pub forced_plan : PlanInput → Option CompactionPlan
  forced_plan input = plan_on_request input (plan input)
