-- ===== src/Index/CompactBounds.antt =====
-- The numbers of a compaction plan of compact_plan.rs.

use native.Mathlib.Nat.{div-add-mod, mod-lt, mul-le-mul_left}
use syntext.Prelude.{
  ℕ, ◌+◌, ◌-◌, ◌*◌, ◌/◌, ◌^◌, ◌<◌, ◌≤◌, ◌≡◌, min, Bool, true, false, ◌&&◌, inl, inr, Option, none,
  some, List, [], ◌∷◌, leb, ◌==◌, if◌then◌else◌, is_empty, length, OptionAll, OptionAll-some,
  Bool-cases, arith,
}
use syntext.Index.CompactPlan.{
  CompactionReason, CompactionPlan, SegmentInfo, PlanInput, max, saturating_u64,
  live_snapshot_bytes_from, partition_point, first_deleted_of, first_deleted_segment, unwrap_or,
  batch_size_bytes, batch_size_for_plan, make_plan, segment_limit_exceeded, overlay_ratio_exceeded,
  file_ids_bloated, suffix_start_for, target_segments_for, plan, plan_on_request, forced_plan,
}

-- `t` parts of the rounded-up share hold the whole.
share_lem : (total t : ℕ) → 1 ≤ t → total ≤ t * ((total + (t - 1)) / t)
share_lem total t h =
    omega (arith, div-add-mod (total + (t - 1)) t, mod-lt (total + (t - 1)) {m = t} (omega arith))

max-upper : (a b : ℕ) → (b ≤ max (max a b) 1) × (a ≤ max (max a b) 1)
max-upper a b = ground arith

max-one : (t : ℕ) → 1 ≤ t → max t 1 ≡ t
max-one t h = ground arith

at_most_max : (m s : ℕ) (limit : Bool) → max (if limit then max (max m 1 - s) 1 else 1) 1 ≤ max m 1
at_most_max m s true = ground arith
at_most_max m s false = ground arith

sum_lem :
    (m n d : ℕ) → (let s = min d (min (max m 1 - 1) n) in s + max (max (max m 1 - s) 1) 1) ≤ max m 1
sum_lem m n d = ground arith

module _ (input : PlanInput) where
  batch-least : (s t : ℕ) → batch_size_bytes ≤ batch_size_for_plan input s t
  unfolding batch_size_for_plan
  batch-least s t = elim (Bool-cases (live_snapshot_bytes_from input s == 0)) [
    | inl empty ↦ rw empty (omega arith)
    | inr some_bytes ↦
        let total = live_snapshot_bytes_from input s in
        let share = saturating_u64 (total + (max t 1 - 1)) / max t 1 in
        rw some_bytes ((max-upper share batch_size_bytes).0)
  ]

  batch-holds :
      (s t : ℕ)
      → 1 ≤ t
      → live_snapshot_bytes_from input s + t < 2 ^ 64
      → live_snapshot_bytes_from input s ≤ t * batch_size_for_plan input s t
  unfolding batch_size_for_plan
  batch-holds s t h fits =
      let total = live_snapshot_bytes_from input s in
      let plain : saturating_u64 (total + (t - 1)) ≡ total + (t - 1) = ground arith in
      let share = (total + (t - 1)) / t in
      elim (Bool-cases (total == 0)) [
        | inl empty ↦ ground arith
        | inr some_bytes ↦
            rw (some_bytes, max-one t h, plain)
              (omega (
                arith,
                share_lem total t h,
                mul-le-mul_left t ((max-upper share batch_size_bytes).1),
              ))
      ]

  -- The suffix is within the segments, there is a segment to write, and that many batches hold the
  -- live bytes.
  abbrev pub SoundPlan : CompactionPlan → Type 0
  SoundPlan p =
      (p.suffix_start ≤ length input.segments)
      × (1 ≤ p.target_segments)
      × (batch_size_bytes ≤ p.batch_size_bytes)
      × (live_snapshot_bytes_from input p.suffix_start ≤ p.target_segments * p.batch_size_bytes)

  module _
      (fits : (s : ℕ) → live_snapshot_bytes_from input s + max input.max_segments 1 < 2 ^ 64) where
    make_plan-SoundPlan :
        (reason : CompactionReason) (s t : ℕ)
        → s ≤ length input.segments
        → max t 1 ≤ max input.max_segments 1
        → SoundPlan (make_plan input reason s t)
    unfolding make_plan
    make_plan-SoundPlan reason s t h k =
        let one : 1 ≤ max t 1 = ground arith in
        (h, one, batch-least s (max t 1), batch-holds s (max t 1) one (omega (arith, fits s)))

  partition_point-le : (ss : List SegmentInfo) (d : ℕ) → partition_point ss d ≤ length ss
  unfolding partition_point
  partition_point-le [] d = omega arith
  partition_point-le (s ∷ ss) d = elim (Bool-cases (leb s.base_id d)) [
    | inl before ↦ rw before (omega (arith, partition_point-le ss d))
    | inr after ↦ rw after (omega arith)
  ]

  first_deleted-le :
      (ds : List ℕ)
      → unwrap_or (first_deleted_of input.segments ds) (length input.segments)
        ≤ length input.segments
  first_deleted-le [] = omega arith
  first_deleted-le (d ∷ ds) = omega (arith, partition_point-le input.segments d)

  start-le : (ratio : ℕ → ℕ → Bool) → suffix_start_for ratio input ≤ length input.segments
  unfolding suffix_start_for
  start-le ratio = elim (Bool-cases (segment_limit_exceeded ratio input)) [
    | inl more ↦ rw more (omega (arith, first_deleted-le input.delete_set))
    | inr few ↦ rw few (omega (arith, first_deleted-le input.delete_set))
  ]

  targets-le :
      (ratio : ℕ → ℕ → Bool) → max (target_segments_for ratio input) 1 ≤ max input.max_segments 1
  unfolding target_segments_for
  targets-le ratio =
      at_most_max input.max_segments (suffix_start_for ratio input)
        (segment_limit_exceeded ratio input)

  module _ (ratio : ℕ → ℕ → Bool)
      (fits : (s : ℕ) → live_snapshot_bytes_from input s + max input.max_segments 1 < 2 ^ 64) where
    plan-SoundPlan : OptionAll SoundPlan (plan ratio input)
    unfolding plan
    plan-SoundPlan = elim (Bool-cases (overlay_ratio_exceeded ratio input)) [
      | inl overlay ↦ rw overlay (
          make_plan-SoundPlan fits CompactionReason.overlay_ratio (suffix_start_for ratio input)
            (target_segments_for ratio input) (start-le ratio) (targets-le ratio))
      | inr few ↦ elim (Bool-cases (segment_limit_exceeded ratio input)) [
        | inl limit ↦
            rw (few, limit)
              (make_plan-SoundPlan fits CompactionReason.segment_limit
                (suffix_start_for ratio input) (target_segments_for ratio input) (start-le ratio)
                (targets-le ratio))
        | inr under ↦ elim (Bool-cases (file_ids_bloated ratio input)) [
          | inl bloat ↦
              rw (few, under, bloat)
                (make_plan-SoundPlan fits CompactionReason.file_id_bloat 0 1 (omega arith)
                  (ground arith))
          | inr small ↦ rw (few, under, small) tt
        ]
      ]
    ]

    forced-SoundPlan :
        (o : Option CompactionPlan)
        → OptionAll SoundPlan o
        → OptionAll SoundPlan (plan_on_request ratio input o)
    forced-SoundPlan (some p) h = h
    forced-SoundPlan none h =
        elim (Bool-cases (is_empty input.overlay_doc_sizes && is_empty input.delete_set)) [
          | inl nothing ↦ rw nothing tt
          | inr changes ↦ rw changes (
              make_plan-SoundPlan fits CompactionReason.explicit_request
                (unwrap_or (first_deleted_segment input) (length input.segments)) 1
                (first_deleted-le input.delete_set) (ground arith))
        ]

    -- Where the live bytes and the limit of segments together fit a u64, every plan, also a forced
    -- one, starts within the segments or at their end, writes one segment at least, has batches of
    -- the default size at least, and its segments, at that size, hold all live bytes of the suffix.
    pub forced_plan-SoundPlan :
        (p : CompactionPlan) → forced_plan ratio input ≡ some p → SoundPlan p
    unfolding forced_plan
    forced_plan-SoundPlan p h =
        OptionAll-some SoundPlan (forced_plan ratio input) p
          (forced-SoundPlan (plan ratio input) plan-SoundPlan) h

  under_limit :
      (ratio : ℕ → ℕ → Bool)
      → segment_limit_exceeded ratio input ≡ true
      → OptionAll
          (λ q. q.suffix_start + q.target_segments ≤ max input.max_segments 1)
          (plan ratio input)
  unfolding plan make_plan suffix_start_for target_segments_for
  under_limit ratio limit =
      let bound =
        sum_lem input.max_segments (length input.segments)
          (unwrap_or (first_deleted_segment input) (length input.segments)) in
      elim (Bool-cases (overlay_ratio_exceeded ratio input)) [
        | inl overlay ↦ rw (overlay, limit) bound
        | inr few ↦ rw (few, limit) bound
      ]

  -- Where there are more segments than the limit, the plan leaves at most as many as the limit:
  -- those before the suffix and the new ones.
  pub plan-max_segments :
      (ratio : ℕ → ℕ → Bool) (p : CompactionPlan)
      → segment_limit_exceeded ratio input ≡ true
      → plan ratio input ≡ some p
      → p.suffix_start + p.target_segments ≤ max input.max_segments 1
  plan-max_segments ratio p limit h =
      OptionAll-some (λ q. q.suffix_start + q.target_segments ≤ max input.max_segments 1)
        (plan ratio input) p (under_limit ratio limit) h
