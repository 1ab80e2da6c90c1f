-- ===== src/Watermark/Sources.antt =====
-- The reports of a source and its output watermark in flaredb/src/engine/watermark.rs.
use flare_db.Base.{
  ◌≡◌, refl, sym, ◌∙◌, inl, inr, ◌⊎◌, ◌≤ℤ◌, ◌<ℤ◌, pos, String, false, Bool-cases, none, some, List,
  [], ◌∷◌, if◌then◌else◌, min_ℤ, max_ℤ, min_ℤ_right, min_ℤ_cases, ≤ℤ_trans, arith,
}
use flare_db.Base.Text.{str_eq_refl}
use flare_db.Base.Dict.{get, put, get-put}
use flare_db.Watermark.State.{
  Timestamp, PartitionWatermark, SourceState, source_output, partitions_output, min_active,
  max_timestamp,
}
use flare_db.Watermark.Manager.{report_partition}
use flare_db.Watermark.Refresh.Bounds.{min_active-le}

-- The timestamp is that of an active partition.
abbrev pub HasActive : Timestamp → List (String × PartitionWatermark) → Type 0
HasActive t [] = ⊥
HasActive t ((_, p) ∷ ps) = ((p.idle ≡ false) × (p.watermark ≡ t)) ⊎ HasActive t ps

-- Every active partition is at `t` or later.
abbrev pub IsBelowActive : Timestamp → List (String × PartitionWatermark) → Type 0
IsBelowActive t [] = Unit {0}
IsBelowActive t ((_, p) ∷ ps) = (p.idle ≡ false → t ≤ℤ p.watermark) × IsBelowActive t ps

min_active-IsBelowActive :
    (w : Timestamp) (ps : List (String × PartitionWatermark)) → IsBelowActive (min_active w ps) ps
unfolding min_active
min_active-IsBelowActive w [] = tt
min_active-IsBelowActive w ((_, p) ∷ ps) = (
  (λ active. rw active (
      ≤ℤ_trans _ (min_ℤ w p.watermark) p.watermark (min_active-le (min_ℤ w p.watermark) ps)
        (min_ℤ_right w p.watermark))),
  min_active-IsBelowActive (if p.idle then w else min_ℤ w p.watermark) ps,
)

min_active-HasActive :
    (w : Timestamp) (ps : List (String × PartitionWatermark))
    → (min_active w ps ≡ w) ⊎ HasActive (min_active w ps) ps
unfolding min_active
min_active-HasActive w [] = inl refl
min_active-HasActive w ((_, p) ∷ ps) =
    let from : Timestamp = if p.idle then w else min_ℤ w p.watermark in
    elim (min_active-HasActive from ps) [
      | inr h ↦ inr (inr h)
      | inl h ↦ elim (Bool-cases p.idle) [
        | inl e ↦ let idle_from : from ≡ w = rw e in inl (h ∙ idle_from)
        | inr e ↦
            let active_from : from ≡ min_ℤ w p.watermark = rw e in
            elim (min_ℤ_cases w p.watermark) [
              | inl k ↦ inl (h ∙ active_from ∙ k)
              | inr k ↦ inr (inl (e, sym (h ∙ active_from ∙ k)))
            ]
      ]
    ]

-- The output watermark of a source that is not finished and has a partition lies at or below every
-- active partition, and it is the watermark of one of them, or else the maximum timestamp.
pub source_output-active :
    (s : SourceState)
    → s.finished ≡ false
    → (s.partitions ≡ [] → ⊥)
    → IsBelowActive (source_output s) s.partitions
      × ((source_output s ≡ max_timestamp) ⊎ HasActive (source_output s) s.partitions)
unfolding source_output
source_output-active s running some_partition =
    rw running (by_partitions s.partitions some_partition)
  where
    by_partitions :
        (ps : List (String × PartitionWatermark))
        → (ps ≡ [] → ⊥)
        → IsBelowActive (partitions_output ps) ps
          × ((partitions_output ps ≡ max_timestamp) ⊎ HasActive (partitions_output ps) ps)
    by_partitions [] h = absurd (h refl)
    by_partitions (p ∷ ps) h = (
      min_active-IsBelowActive max_timestamp (p ∷ ps),
      min_active-HasActive max_timestamp (p ∷ ps),
    )

-- The first report of a partition leaves it active at the later of the report and the epoch: the
-- entry starts at 0, so a first report before the epoch is lost and the partition stands at 0.
pub report_partition-first :
    (s : SourceState) (partition : String) (t : Timestamp)
    → get partition s.partitions ≡ none
    → get partition (report_partition partition t s).partitions
      ≡ some (record { watermark = max_ℤ (pos 0) t; idle = false })
report_partition-first s partition t h = rw (get-put, str_eq_refl, h)

max_ℤ_negative : (t : Timestamp) → t <ℤ pos 0 → max_ℤ (pos 0) t ≡ pos 0
unfolding max_ℤ
max_ℤ_negative t h = ground arith

-- A source with no partition yet that reports a timestamp before the epoch, and is not finished, has
-- the epoch as its output watermark, which is later than what it reported.
pub report_before_epoch :
    (s : SourceState) (partition : String) (t : Timestamp)
    → s.partitions ≡ []
    → s.finished ≡ false
    → t <ℤ pos 0
    → (source_output (report_partition partition t s) ≡ pos 0)
      × (t <ℤ source_output (report_partition partition t s))
unfolding source_output min_active get put min_ℤ
report_before_epoch s partition t h running before =
    let at_epoch : source_output (report_partition partition t s) ≡ pos 0 =
      rw (running, h, max_ℤ_negative t before) in
    (at_epoch, rw at_epoch before)
