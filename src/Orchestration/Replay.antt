-- ===== src/Orchestration/Replay.antt =====
-- What the replay of dataeng/orchestration/jobs.py leaves of every partition.
use post_trade_reconciliatio.Prelude.{
  ℕ, ◌≡◌, refl, sym, ap, subst, ◌∙◌, Bool, true, false, Option, List, [], ◌∷◌, any, All, ◌⊎◌, inl,
  inr, length, arith, Bool-cases,
}
use post_trade_reconciliatio.Prelude.Str.{Str, str_eq, same}
use post_trade_reconciliatio.Prelude.Ordered.{sorted_by, any-sorted_by, All-sorted_by}
use post_trade_reconciliatio.Models.{DateTime, Tick}
use post_trade_reconciliatio.Ingest.{Number, Loaded, Result, returns, raises, Ingestor}
use post_trade_reconciliatio.Silver.{
  SilverTransformResult, Files, Normalized, rewrite, finish, transform_symbol_date,
}
use post_trade_reconciliatio.Discovery.{Partition, Partition-discrete, partition_eq}
use post_trade_reconciliatio.Orchestration.{
  leb_partition, next_files, counted, silver_ticks, replay_each, replay_all_bronze_partitions_op,
}
use post_trade_reconciliatio.Orchestration.Dirs.{
  files_at, own, files_at-rewrite, files_at-rewrite_other, IsNamed, dir_of, dir_of-injective,
}

-- A result that a raise has cut off.
abbrev pub is_raise : {A : Type 0} → Result A → Bool
is_raise raises = true
is_raise (returns a) = false

abbrev files_of : Result (SilverTransformResult × Files) → Files
files_of raises = []
files_of (returns (result, files)) = files

-- A transform that never looks at the files that are there: it raises, or it rewrites its directory.
abbrev Rebuilds : Str → (Files → Result (SilverTransformResult × Files)) → Type 0
Rebuilds dir f =
    ((files : Files) → f files ≡ raises)
    ⊎ ((result : SilverTransformResult) × (ticks : List Tick) × ((files : Files)
          → f files ≡ returns (result, rewrite dir ticks files)))

-- No other partition has the directory.
dirs-absent :
    (output_dir : Str) (p : Partition) (ps : List Partition)
    → IsNamed p
    → All IsNamed ps
    → any (same p) ps ≡ false
    → any (λ q. same (dir_of output_dir p) (dir_of output_dir q)) ps ≡ false
dirs-absent output_dir p [] named all_named h = refl
dirs-absent output_dir p (q ∷ ps) named all_named h = ground (
  arith,
  dirs-absent output_dir p ps named all_named.1,
  dir_of-injective output_dir p q named all_named.0,
)

module _ (decimal : Str → Number) (fromisoformat : Str → Option DateTime) (loads : Str → Loaded)
    (now : DateTime) (ingestor : Ingestor) (is_blank : Str → Bool) (output_dir : Str)
    (bucket : List (Str × List Str)) where
  abbrev transform : Partition → Files → Result (SilverTransformResult × Files)
  transform p files =
      silver_ticks decimal fromisoformat loads now ingestor is_blank output_dir bucket p files

  abbrev each : List Partition → Files → Result Files
  each ps files =
      replay_each decimal fromisoformat loads now ingestor is_blank output_dir bucket ps files

  finish-Rebuilds :
      (raw_lines : List Str) (dropped : ℕ) (dir : Str) (r : Result Normalized)
      → Rebuilds dir (λ files. finish decimal fromisoformat loads now raw_lines dropped dir files r)
  finish-Rebuilds raw_lines dropped dir raises = inl (λ files. refl)
  finish-Rebuilds raw_lines dropped dir (returns n) = inr (_, n.ticks, λ files. refl)

  transform-Rebuilds : (p : Partition) → Rebuilds (dir_of output_dir p) (transform p)
  unfolding silver_ticks transform_symbol_date
  transform-Rebuilds p = finish-Rebuilds _ _ (dir_of output_dir p) _

  -- What the partition's transform leaves in its directory where nothing was before.
  abbrev pub alone : Partition → Files
  alone p = files_at (dir_of output_dir p) (files_of (transform p []))

  -- Every partition's directory holds what its own transform makes, and the others are left as
  -- they were.
  abbrev IsReplayed : List Partition → Files → Files → Type 0
  IsReplayed ps before after =
      ((p : Partition) → any (same p) ps ≡ true → files_at (dir_of output_dir p) after ≡ alone p)
      × ((dir : Str)
          → any (λ p. same dir (dir_of output_dir p)) ps ≡ false
          → files_at dir after ≡ files_at dir before)

  abbrev Replayed : List Partition → Files → Result Files → Type 0
  Replayed ps before raises = any (λ p. is_raise (transform p [])) ps ≡ true
  Replayed ps before (returns after) =
      (any (λ p. is_raise (transform p [])) ps ≡ false) × IsReplayed ps before after

  module _ (p : Partition) (ps : List Partition) (before : Files) (result : SilverTransformResult)
      (ticks : List Tick)
      (e : (files : Files)
        → transform p files ≡ returns (result, rewrite (dir_of output_dir p) ticks files))
      (named : IsNamed p) (all_named : All IsNamed ps) where
    dir : Str
    dir = dir_of output_dir p

    own-alone : own ticks dir ≡ alone p
    unfolding dir
    own-alone = sym (ap (λ r. files_at dir (files_of r)) (e []) ∙ files_at-rewrite dir ticks [])

    first-alone :
        (after : Files)
        → IsReplayed ps (rewrite dir ticks before) after
        → any (same p) ps ≡ false
        → files_at dir after ≡ alone p
    unfolding dir
    first-alone after h m =
        h.1 dir (dirs-absent output_dir p ps named all_named m)
        ∙ files_at-rewrite dir ticks before
        ∙ own-alone

    IsReplayed-cons :
        (after : Files)
        → IsReplayed ps (rewrite dir ticks before) after
        → IsReplayed (p ∷ ps) before after
    unfolding dir
    IsReplayed-cons after h = (
      (λ q m. elim (Bool-cases (any (same q) ps)) [
        | inl later ↦ h.0 q later
        | inr absent ↦ elim (Partition-discrete q p) [
          | yes s ↦
              subst (λ x. files_at (dir_of output_dir x) after ≡ alone x) (sym s)
                (first-alone after h (sym (ap (λ x. any (same x) ps) s) ∙ absent))
          | no s ↦ ground arith
        ]
      ]),
      λ other m.
          h.1 other (ground arith) ∙ files_at-rewrite_other other dir ticks before (ground arith),
    )

    Replayed-cons :
        (r : Result Files) → Replayed ps (rewrite dir ticks before) r → Replayed (p ∷ ps) before r
    Replayed-cons raises h = ground (arith, h)
    Replayed-cons (returns after) h =
        (ground (arith, ap is_raise (e []), h.0), IsReplayed-cons after h.1)

  each-Replayed :
      (ps : List Partition) (before : Files) → All IsNamed ps → Replayed ps before (each ps before)
  unfolding silver_ticks dir
  each-Replayed [] before named = (refl, ((λ p m. ground arith), λ dir m. refl))
  each-Replayed (p ∷ ps) before named = elim (transform-Rebuilds p) [
    | inl raised ↦
        subst (λ r. Replayed (p ∷ ps) before (next_files r (each ps))) (sym (raised before))
          (ground (arith, ap is_raise (raised [])))
    | inr (result, ticks, e) ↦
        subst (λ r. Replayed (p ∷ ps) before (next_files r (each ps))) (sym (e before))
          (Replayed-cons p ps before result ticks e named.0 named.1 _
            (each-Replayed ps (rewrite (dir_of output_dir p) ticks before) named.1))
  ]

  -- How the replay of a set of partitions ends.
  abbrev pub EndsReplayed : List Partition → Files → Result (ℕ × Files) → Type 0
  EndsReplayed ps before raises = any (λ p. is_raise (transform p [])) ps ≡ true
  EndsReplayed ps before (returns (n, after)) =
      (n ≡ length ps)
      × (any (λ p. is_raise (transform p [])) ps ≡ false)
      × IsReplayed ps before after

  counted-EndsReplayed :
      (ps : List Partition) (before : Files) (r : Result Files)
      → Replayed (sorted_by leb_partition ps) before r
      → EndsReplayed ps before (counted (length ps) r)
  counted-EndsReplayed ps before raises h =
      sym (any-sorted_by leb_partition (λ p. is_raise (transform p [])) ps) ∙ h
  counted-EndsReplayed ps before (returns after) h = (
    refl,
    sym (any-sorted_by leb_partition (λ p. is_raise (transform p [])) ps) ∙ h.0,
    (
      (λ p m. h.1.0 p (any-sorted_by leb_partition (same p) ps ∙ m)),
      λ dir m. h.1.1 dir (any-sorted_by leb_partition (λ p. same dir (dir_of output_dir p)) ps ∙ m),
    ),
  )

  -- The replay raises exactly if the transform of some partition does. Otherwise it returns their
  -- number, each partition's directory holds exactly what its own transform makes of the bucket,
  -- whatever was there before, and every other directory is as it was, if symbols and dates have
  -- no slash.
  pub replay_all_bronze_partitions_op-EndsReplayed :
      (ps : List Partition) (before : Files)
      → All IsNamed ps
      → EndsReplayed ps before (
          replay_all_bronze_partitions_op decimal fromisoformat loads now ingestor is_blank
            output_dir bucket ps before)
  unfolding replay_all_bronze_partitions_op
  replay_all_bronze_partitions_op-EndsReplayed ps before named = counted-EndsReplayed ps before _ (
      each-Replayed (sorted_by leb_partition ps) before
        (All-sorted_by leb_partition IsNamed ps named))
