-- ===== src/Reconcile/Specification.antt =====
-- What the three searches of reconcile/reconciler.py are meant to find, said without their loops,
-- sorts and dicts.
use post_trade_reconciliatio.Prelude.{
  ℕ, Bool, false, not, ◌&&◌, Option, none, some, List, [], ◌∷◌, ◌++◌, map, if◌then◌else◌, filter,
  any, leb, ltb,
}
use post_trade_reconciliatio.Prelude.Int.{◌-ℤ◌, abs, leb_ℤ, ltb_ℤ, sum}
use post_trade_reconciliatio.Prelude.Str.{Str, same, str_eq, nat_eq}
use post_trade_reconciliatio.Models.{TimeDelta, Decimal, Break, Detail, missing_ticks}
use post_trade_reconciliatio.Storage.Rows.{FillRow, PositionRow, TickRow}
use post_trade_reconciliatio.Reconcile.{signed_quantity, unmatched_break, drift_break}

-- Some tick lies within the window of the fill.
abbrev pub is_matched : TimeDelta → List TickRow → FillRow → Bool
is_matched window ticks fill = any (λ t. leb_ℤ (abs (t.time -ℤ fill.time)) window) ticks

abbrev pub unmatched_spec : Str → TimeDelta → List FillRow → List TickRow → List Break
unmatched_spec symbol window fills ticks =
    map (unmatched_break symbol window) (filter (λ f. not (is_matched window ticks f)) fills)

-- The net quantity of the fills executed up to a sequence.
abbrev pub position_at : List FillRow → ℕ → Decimal
position_at fills sequence = sum (map signed_quantity (filter (λ f. leb f.sequence sequence) fills))

-- The fill with an id.
abbrev pub fill_with : Str → List FillRow → Option FillRow
fill_with fill_id [] = none
fill_with fill_id (f ∷ fills) = if same f.fill_id fill_id then some f else fill_with fill_id fills

-- The breaks of one position row: none, or one.
abbrev pub drift_spec_of : Str → Decimal → List FillRow → PositionRow → Option FillRow → List Break
drift_spec_of symbol tolerance fills p none = []
drift_spec_of symbol tolerance fills p (some f) =
    if ltb_ℤ tolerance (abs (p.quantity -ℤ position_at fills f.sequence))
    then drift_break symbol p f.fill_id (position_at fills f.sequence) ∷ []
    else []

abbrev pub fill_of : Option Str → List FillRow → Option FillRow
fill_of none fills = none
fill_of (some fill_id) fills = fill_with fill_id fills

abbrev pub drift_spec : Str → Decimal → List FillRow → List PositionRow → List Break
drift_spec symbol tolerance fills [] = []
drift_spec symbol tolerance fills (p ∷ positions) =
    drift_spec_of symbol tolerance fills p (fill_of p.last_fill_id fills)
    ++ drift_spec symbol tolerance fills positions

-- A sequence that a break reports as missing.
abbrev pub covers : ℕ → Detail → Bool
covers n (missing_ticks symbol prev curr missing) = ltb prev n && ltb n curr
covers n _ = false

abbrev pub has_sequence : ℕ → List TickRow → Bool
has_sequence n = any (λ t. same t.sequence n)

-- `n` is missing: it is not stored, and a lower and a higher sequence are.
abbrev pub is_missing : List TickRow → ℕ → Bool
is_missing ticks n =
    not (has_sequence n ticks)
    && (any (λ t. ltb t.sequence n) ticks && any (λ t. ltb n t.sequence) ticks)
