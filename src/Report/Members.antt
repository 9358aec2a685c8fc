-- ===== src/Report/Members.antt =====
-- Which ids stand in the sets that report/report.py compares.
use post_trade_reconciliatio.Prelude.{
  ◌≡◌, refl, sym, ap, ◌∙◌, Bool, true, false, ◌&&◌, ◌||◌, Option, none, some, List, [], ◌∷◌, map,
  filter, any, any-ext, any-filter, any-map, All, arith,
}
use post_trade_reconciliatio.Prelude.Str.{Str, str_eq, same}
use post_trade_reconciliatio.Prelude.Sorting.{SortBy}
use post_trade_reconciliatio.Prelude.Rearranged.{any-perm}
use post_trade_reconciliatio.Models.{BreakType, unmatched_fill, position_drift, sequence_gap, Break}
use post_trade_reconciliatio.Storage.Rows.{FillRow, AnomalyRow}
use post_trade_reconciliatio.Reconcile.Flags.{flagged, is_some_text, same_type}
use post_trade_reconciliatio.Simulate.Nets.{of_symbol}
use post_trade_reconciliatio.Simulate.Found.{is_drift}
use post_trade_reconciliatio.Simulate.Logged.{is_kind, logged_ids, fill_ids}
use post_trade_reconciliatio.Report.{id_set, planted_ids, found_ids}

any-id_set :
    (id : Str) (ids : List (Option Str)) → any (same id) (id_set ids) ≡ any (is_some_text id) ids
any-id_set id [] = refl
any-id_set id (none ∷ ids) = any-id_set id ids
any-id_set id (some k ∷ ids) = ground (
  arith,
  any-id_set id ids,
  λ (e : id ≡ k). sym e,
  λ (e : k ≡ id). sym e,
  λ (e : k ≡ id). ap (λ x. any (same x) (id_set ids)) e,
)

pub any-found_ids :
    (id : Str) (kind : BreakType) (breaks : List Break)
    → any (same id) (found_ids kind breaks) ≡ flagged kind id breaks
any-found_ids id kind breaks =
    any-id_set id (map (λ b. b.related_fill_id) (filter (λ b. same_type b.break_type kind) breaks))
    ∙ any-map (λ b. b.related_fill_id) (is_some_text id)
        (filter (λ b. same_type b.break_type kind) breaks)
    ∙ any-filter (λ b. is_some_text id b.related_fill_id) (λ b. same_type b.break_type kind) breaks

-- The logged ids of a kind, in whatever order they are read.
pub any-planted_ids :
    (id : Str) (kind : BreakType) (sql : SortBy) (anomalies : List AnomalyRow)
    → any (same id) (planted_ids kind (sql.sort_by AnomalyRow (λ a. a.planted_at) anomalies))
      ≡ any (is_some_text id) (logged_ids kind anomalies)
any-planted_ids id kind sql anomalies =
    let read = sql.sort_by AnomalyRow (λ a. a.planted_at) anomalies in
    any-id_set id (logged_ids kind read)
    ∙ by_row read
    ∙ any-perm (λ a. same_type a.anomaly_type kind && is_some_text id a.related_fill_id)
        (sql.sort_by_perm AnomalyRow (λ a. a.planted_at) anomalies)
    ∙ sym (by_row anomalies)
  where
    by_row :
        (rows : List AnomalyRow)
        → any (is_some_text id) (logged_ids kind rows)
          ≡ any (λ a. same_type a.anomaly_type kind && is_some_text id a.related_fill_id) rows
    by_row rows =
        any-map (λ a. a.related_fill_id) (is_some_text id)
          (filter (λ a. same_type a.anomaly_type kind) rows)
        ∙ any-filter (λ a. is_some_text id a.related_fill_id) (λ a. same_type a.anomaly_type kind)
            rows

drift-kind : (kind : Option BreakType) → is_kind position_drift kind ≡ is_drift kind
drift-kind none = refl
drift-kind (some unmatched_fill) = refl
drift-kind (some position_drift) = refl
drift-kind (some sequence_gap) = refl

-- A fill with the id was planted with a drift.
abbrev pub drifted : Str → List FillRow → Bool
drifted id = any (λ f. is_drift f.anomaly_type && same f.fill_id id)

pub any-fill_ids :
    (id : Str) (fills : List FillRow)
    → any (is_some_text id) (fill_ids position_drift fills) ≡ drifted id fills
any-fill_ids id fills =
    any-map (λ f. some f.fill_id) (is_some_text id)
      (filter (λ f. is_kind position_drift f.anomaly_type) fills)
    ∙ any-filter (λ f. same f.fill_id id) (λ f. is_kind position_drift f.anomaly_type) fills
    ∙ any-ext _ _ fills (λ f. ap (λ b. b && same f.fill_id id) (drift-kind f.anomaly_type))

-- The symbols' fills are all fills, if every fill's symbol is listed.
any-symbols :
    (q : FillRow → Bool) (symbols : List Str) (f : FillRow)
    → any (λ symbol. same f.symbol symbol && q f) symbols ≡ (any (same f.symbol) symbols && q f)
any-symbols q [] f = refl
any-symbols q (symbol ∷ symbols) f = ground (arith, any-symbols q symbols f)

any-or :
    (p q : Str → Bool) (symbols : List Str)
    → any (λ x. p x || q x) symbols ≡ (any p symbols || any q symbols)
any-or p q [] = refl
any-or p q (x ∷ symbols) = ground (arith, any-or p q symbols)

any-none : (symbols : List Str) → any (λ x. false) symbols ≡ false
any-none [] = refl
any-none (x ∷ symbols) = any-none symbols

pub by_symbols :
    (q : FillRow → Bool) (symbols : List Str) (fills : List FillRow)
    → All (λ f. any (same f.symbol) symbols ≡ true) fills
    → any (λ symbol. any q (of_symbol symbol fills)) symbols ≡ any q fills
by_symbols q symbols fills h =
    any-ext _ _ symbols (λ symbol. any-filter q (λ f. same f.symbol symbol) fills) ∙ turned fills h
  where
    turned :
        (fs : List FillRow)
        → All (λ f. any (same f.symbol) symbols ≡ true) fs
        → any (λ symbol. any (λ f. same f.symbol symbol && q f) fs) symbols ≡ any q fs
    turned [] k = any-none symbols
    turned (f ∷ fs) k =
        any-or (λ symbol. same f.symbol symbol && q f)
          (λ symbol. any (λ g. same g.symbol symbol && q g) fs) symbols
        ∙ ground (arith, any-symbols q symbols f, k.0, turned fs k.1)
