-- ===== src/Report/Scores.antt =====
-- What the measured precision and recall of report/report.py say of the two sets of ids.
use post_trade_reconciliatio.Prelude.{
  ◌+◌, ◌≡◌, refl, sym, ap, ◌∙◌, true, false, ◌↔◌, Option, none, some, List, [], ◌∷◌, map, filter,
  any, count, length, if◌then◌else◌, arith,
}
use post_trade_reconciliatio.Prelude.Str.{Str, str_eq, same}
use post_trade_reconciliatio.Prelude.Distinct.{is_distinct}
use post_trade_reconciliatio.Models.{BreakType, Break}
use post_trade_reconciliatio.Storage.Rows.{AnomalyRow}
use post_trade_reconciliatio.Reconcile.Flags.{same_type}
use post_trade_reconciliatio.Report.{
  id_set, planted_ids, found_ids, both_of, only_first, rate, Score, score,
}

split-length : (xs ys : List Str) → length (both_of xs ys) + length (only_first xs ys) ≡ length xs
split-length [] ys = omega arith
split-length (x ∷ xs) ys = ground (arith, split-length xs ys)

is_distinct-id_set : (ids : List (Option Str)) → is_distinct (id_set ids) ≡ true
is_distinct-id_set [] = refl
is_distinct-id_set (none ∷ ids) = is_distinct-id_set ids
is_distinct-id_set (some id ∷ ids) = ground (arith, is_distinct-id_set ids)

is_distinct-planted :
    (t : BreakType) (truth : List AnomalyRow) → is_distinct (planted_ids t truth) ≡ true
is_distinct-planted t truth =
    is_distinct-id_set
      (map (λ a. a.related_fill_id) (filter (λ a. same_type a.anomaly_type t) truth))

is_distinct-found : (t : BreakType) (breaks : List Break) → is_distinct (found_ids t breaks) ≡ true
is_distinct-found t breaks =
    is_distinct-id_set
      (map (λ b. b.related_fill_id) (filter (λ b. same_type b.break_type t) breaks))

count-same :
    (x : Str) (ys : List Str)
    → is_distinct ys ≡ true
    → count (λ y. same y x) ys ≡ (if any (same x) ys then 1 else 0)
count-same x [] d = refl
count-same x (y ∷ ys) d = ground (
  arith,
  count-same x ys,
  λ (e : y ≡ x). ap (λ z. any (same z) ys) e,
  λ (e : y ≡ x). sym e,
  λ (e : x ≡ y). sym e,
)

-- One more item to have in common.
both_of-more :
    (x : Str) (xs ys : List Str)
    → any (same x) xs ≡ false
    → length (both_of ys (x ∷ xs)) ≡ count (λ y. same y x) ys + length (both_of ys xs)
both_of-more x xs [] h = omega arith
both_of-more x xs (y ∷ ys) h =
    ground (arith, both_of-more x xs ys h, λ (e : y ≡ x). ap (λ z. any (same z) xs) e)

both_of-nothing : (ys : List Str) → length (both_of ys []) ≡ 0
both_of-nothing [] = refl
both_of-nothing (y ∷ ys) = both_of-nothing ys

-- Distinct lists have as many items of the other in common, one way or the other.
both_of_comm :
    (xs ys : List Str)
    → is_distinct xs ≡ true
    → is_distinct ys ≡ true
    → length (both_of xs ys) ≡ length (both_of ys xs)
both_of_comm [] ys dx dy = sym (both_of-nothing ys)
both_of_comm (x ∷ xs) ys dx dy =
    ground (arith, both_of_comm xs ys, both_of-more x xs ys, count-same x ys dy)

abbrev pub AllIn : List Str → List Str → Type 0
AllIn xs ys = (id : Str) → any (same id) xs ≡ true → any (same id) ys ≡ true

none_only-AllIn : (xs ys : List Str) → length (only_first xs ys) ≡ 0 → AllIn xs ys
none_only-AllIn [] ys h id m = ground arith
none_only-AllIn (x ∷ xs) ys h id m = ground (
  arith,
  λ (l : length (only_first xs ys) ≡ 0) (q : any (same id) xs ≡ true). none_only-AllIn xs ys l id q,
  λ (e : id ≡ x). ap (λ z. any (same z) ys) e,
)

AllIn-none_only : (xs ys : List Str) → AllIn xs ys → length (only_first xs ys) ≡ 0
AllIn-none_only [] ys h = refl
AllIn-none_only (x ∷ xs) ys h =
    ground (arith, h x, AllIn-none_only xs ys (λ id m. h id (ground arith)))

both_of-AllIn : (xs ys : List Str) → (length (both_of xs ys) ≡ length xs) ↔ AllIn xs ys
both_of-AllIn xs ys = (
  λ e. none_only-AllIn xs ys (omega (arith, e, split-length xs ys)),
  λ h. omega (arith, split-length xs ys, AllIn-none_only xs ys h),
)

-- The line of a type: the recall is the found share of the planted ids and the precision the
-- planted share of the found ids, each nan only without ids, and a share is whole exactly if all
-- its ids are in the other set.
pub record IsScore (planted found : List Str) (s : Score) : Type 0 where
  pub planted_count : s.planted ≡ length planted
  pub recall : s.recall ≡ rate s.found (length planted)
  pub precision : s.precision ≡ rate s.found (length found)
  pub all_found : (s.found ≡ length planted) ↔ AllIn planted found
  pub all_planted : (s.found ≡ length found) ↔ AllIn found planted

-- Each line of the report's table is the measured recall and precision of its type, over the sets
-- of the planted and of the found fill ids.
pub score-IsScore :
    (anomaly_type : BreakType) (truth : List AnomalyRow) (breaks : List Break)
    → IsScore
        (planted_ids anomaly_type truth)
        (found_ids anomaly_type breaks)
        (score anomaly_type truth breaks)
unfolding score
score-IsScore anomaly_type truth breaks =
    let planted = planted_ids anomaly_type truth in
    let found = found_ids anomaly_type breaks in
    let common : length (both_of planted found) ≡ length (both_of found planted) =
      both_of_comm planted found (is_distinct-planted anomaly_type truth)
        (is_distinct-found anomaly_type breaks) in
    record {
      planted_count = refl;
      recall = ap (rate (length (both_of planted found))) (split-length planted found);
      precision =
          ap (rate (length (both_of planted found)))
            (omega (arith, common, split-length found planted));
      all_found = both_of-AllIn planted found;
      all_planted = (
        λ e. (both_of-AllIn found planted).0 (sym common ∙ e),
        λ h. common ∙ (both_of-AllIn found planted).1 h,
      );
    }
