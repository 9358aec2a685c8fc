-- ===== src/Report.antt =====
-- posttrade/report/report.py: `generate_break_report`'s figures. A line of the report is modelled
-- by the values that it interpolates; the charts of matplotlib are left out. A float quotient is
-- its two operands, and nan is none.
pub mod Scores
pub mod Members
pub mod Truth
mod Tests
use post_trade_reconciliatio.Prelude.{
  ℕ, ◌+◌, ◌*◌, Bool, true, false, not, Option, none, some, List, [], ◌∷◌, ◌++◌, map, filter, any,
  count, is_empty, take, length, ltb, if◌then◌else◌,
}
use post_trade_reconciliatio.Prelude.Int.{◌+ℤ◌, ◌-ℤ◌, pos}
use post_trade_reconciliatio.Prelude.Str.{Str, str_eq, same}
use post_trade_reconciliatio.Prelude.Sorting.{SortBy}
use post_trade_reconciliatio.Models.{
  BreakType, unmatched_fill, position_drift, sequence_gap, Break, DateTime, minutes,
}
use post_trade_reconciliatio.Storage.Rows.{AnomalyRow}
use post_trade_reconciliatio.Storage.Book.{Book, read_planted_anomalies_df}
use post_trade_reconciliatio.Storage.Ticks.{TickStore}
use post_trade_reconciliatio.Reconcile.{Reconciler, reconcile_all}
use post_trade_reconciliatio.Reconcile.Flags.{same_type}
use post_trade_reconciliatio.Reconcile.Frames.{Pandas}

-- `set(ids.dropna())`: each id once.
abbrev pub add_id : Option Str → List Str → List Str
add_id none ids = ids
add_id (some id) ids = if any (same id) ids then ids else id ∷ ids

abbrev pub id_set : List (Option Str) → List Str
id_set [] = []
id_set (id ∷ ids) = add_id id (id_set ids)

abbrev pub planted_ids : BreakType → List AnomalyRow → List Str
planted_ids anomaly_type truth =
    id_set
      (map (λ a. a.related_fill_id) (filter (λ a. same_type a.anomaly_type anomaly_type) truth))

abbrev pub found_ids : BreakType → List Break → List Str
found_ids anomaly_type breaks =
    id_set (map (λ b. b.related_fill_id) (filter (λ b. same_type b.break_type anomaly_type) breaks))

-- `xs & ys` and `xs - ys`
abbrev pub both_of : List Str → List Str → List Str
both_of xs ys = filter (λ x. any (same x) ys) xs

abbrev pub only_first : List Str → List Str → List Str
only_first xs ys = filter (λ x. not (any (same x) ys)) xs

abbrev pub rate : ℕ → ℕ → Option (ℕ × ℕ)
rate n total = if ltb 0 total then some (n, total) else none

-- A line of the table of measured precision and recall.
pub record Score : Type 0 where
  pub anomaly_type : BreakType
  pub planted : ℕ
  pub found : ℕ
  pub precision : Option (ℕ × ℕ)
  pub recall : Option (ℕ × ℕ)

unfoldable pub score : BreakType → List AnomalyRow → List Break → Score
score anomaly_type truth breaks =
    let planted = planted_ids anomaly_type truth in
    let found = found_ids anomaly_type breaks in
    let tp = length (both_of planted found) in
    let fn = length (only_first planted found) in
    let fp = length (only_first found planted) in
    record {
      anomaly_type = anomaly_type;
      planted = length planted;
      found = tp;
      precision = rate tp (tp + fp);
      recall = rate tp (tp + fn);
    }

-- The counts of the types that occur, in an order that is left open.
abbrev pub value_counts : List Break → List (BreakType × ℕ)
value_counts breaks =
    filter (λ c. ltb 0 c.1)
      (map (λ t. (t, count (λ (b : Break). same_type b.break_type t) breaks))
        (unmatched_fill ∷ position_drift ∷ sequence_gap ∷ []))

-- The report: the total, the counts, the scores with the planted and the found gaps if there is a
-- ground truth, and the sample.
pub record BreakReport : Type 0 where
  pub symbols : List Str
  pub total : ℕ
  pub counts : List (BreakType × ℕ)
  pub measured : Option (List Score × (ℕ × ℕ))
  pub sample : List Break

unfoldable pub measure : List AnomalyRow → List Break → Option (List Score × (ℕ × ℕ))
unfolding score
measure truth breaks =
    if is_empty truth
    then none
    else some (
      map (λ t. score t truth breaks) (unmatched_fill ∷ position_drift ∷ []),
      (
        count (λ a. same_type a.anomaly_type sequence_gap) truth,
        count (λ b. same_type b.break_type sequence_gap) breaks,
      ),
    )

-- The range of the report: `hours_back` hours before, and `minutes_forward` minutes after, the
-- clock's readings.
abbrev pub report_start : DateTime → ℕ → DateTime
report_start now hours_back = now -ℤ minutes (hours_back * 60)

abbrev pub report_end : DateTime → ℕ → DateTime
report_end now minutes_forward = now +ℤ minutes minutes_forward

module _ (sql : SortBy) (pd : Pandas) {S : Type 0} (tick_store : TickStore S) where
  abbrev pub report_of : List Str → List AnomalyRow → Option (List Break) → Option BreakReport
  report_of symbols truth none = none
  report_of symbols truth (some breaks) = some (record {
    symbols = symbols;
    total = length breaks;
    counts = value_counts breaks;
    measured = measure truth breaks;
    sample = take 15 (sql.sort_by Break (λ b. b.detected_at) breaks);
  })

  -- `generate_break_report`, with the reconciler's default settings given.
  unfoldable pub generate_break_report :
      Reconciler → Book → S → DateTime → DateTime → List Str → ℕ → ℕ → Option BreakReport
  unfolding measure
  generate_break_report r book ticks now later symbols hours_back minutes_forward =
      report_of symbols (read_planted_anomalies_df sql book) (
        reconcile_all sql pd tick_store r book ticks symbols (report_start now hours_back)
          (report_end later minutes_forward))
