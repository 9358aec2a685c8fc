-- ===== src/Simulate/Gaps.antt =====
-- `_plant_sequence_gap` of simulate/trade_book_simulator.py against `_find_sequence_gaps` of
-- reconcile/reconciler.py, over the ticks of the TimescaleDB store.
use post_trade_reconciliatio.Prelude.{
  ℕ, ◌<◌, ◌≡◌, refl, ap, ◌∙◌, true, false, not, ◌&&◌, some, List, [], ◌∷◌, arith, filter, any,
  count, if◌then◌else◌, ltb, take, drop, length,
}
use post_trade_reconciliatio.Prelude.Str.{Str, same, str_eq, nat_eq}
use post_trade_reconciliatio.Prelude.Sorting.{SortBy, sorted}
use post_trade_reconciliatio.Prelude.Dict.{lookup_or}
use post_trade_reconciliatio.Models.{Break, DateTime}
use post_trade_reconciliatio.Storage.Ticks.{Table, is_listed}
use post_trade_reconciliatio.Storage.Ticks.Timescale
use post_trade_reconciliatio.Storage.Ticks.Laws.{Timescale-delete_sequences}
use post_trade_reconciliatio.Reconcile.{find_sequence_gaps}
use post_trade_reconciliatio.Reconcile.Frames.{Pandas}
use post_trade_reconciliatio.Reconcile.Specification.{covers, has_sequence, is_missing}
use post_trade_reconciliatio.Reconcile.Gaps.{find_sequence_gaps_lem}
use post_trade_reconciliatio.Simulate.{Simulator, Draws, log_gap, plant_sequence_gap}

-- The rows of a symbol.
abbrev pub rows_of : Str → Table → Table
rows_of symbol = filter (λ r. same r.symbol symbol)

has_sequence-kept :
    (symbol : Str) (sequences : List ℕ) (m : ℕ) (t : Table)
    → has_sequence m (rows_of symbol (filter (λ r. not (is_listed symbol sequences r)) t))
      ≡ has_sequence m (rows_of symbol t) && not (any (same m) sequences)
has_sequence-kept symbol sequences m [] = refl
has_sequence-kept symbol sequences m (r ∷ t) = ground (
  arith,
  has_sequence-kept symbol sequences m t,
  λ (p : m ≡ r.sequence). ap (λ x. any (same x) sequences) p,
)

any-below :
    (lo n : ℕ) (t : Table)
    → lo < n
    → has_sequence lo t ≡ true
    → any (λ r. ltb r.sequence n) t ≡ true
any-below lo n [] h e = e
any-below lo n (r ∷ t) h e = ground (arith, any-below lo n t h)

any-above :
    (n hi : ℕ) (t : Table)
    → n < hi
    → has_sequence hi t ≡ true
    → any (λ r. ltb n r.sequence) t ≡ true
any-above n hi [] h e = e
any-above n hi (r ∷ t) h e = ground (arith, any-above n hi t h)

log_gap-ticks :
    {S : Type 0} (symbol : Str) (t : DateTime) (deleted : List ℕ) (s : Simulator S)
    → (log_gap symbol t deleted s).ticks ≡ s.ticks
unfolding log_gap
log_gap-ticks symbol t [] s = refl
log_gap-ticks symbol t (n ∷ deleted) s = refl

-- The sequences that `_plant_sequence_gap` draws.
abbrev pub gap_of : {S : Type 0} → Str → Draws → Simulator S → List ℕ
gap_of symbol d s =
    take d.gap_length (drop d.start_idx (sorted (lookup_or symbol [] s.recent_sequences)))

module _ (sql : SortBy) (symbol : Str) (at : DateTime) (d : Draws) (s : Simulator Table) where
  plant_sequence_gap-ticks :
      ltb (length (sorted (lookup_or symbol [] s.recent_sequences))) 6 ≡ false
      → (plant_sequence_gap (Timescale.store sql) symbol at d s).ticks
        ≡ filter (λ r. not (is_listed symbol (gap_of symbol d s) r)) s.ticks
  unfolding plant_sequence_gap
  plant_sequence_gap-ticks long =
      let (deleted, ticks) = Timescale.delete_sequences symbol (gap_of symbol d s) s.ticks in
      rw long (
        log_gap-ticks symbol at deleted (record s { ticks = ticks })
        ∙ (Timescale-delete_sequences symbol (gap_of symbol d s) s.ticks).rest)

-- A planted gap is found: where a symbol has at least six recent sequences, and sequences below and
-- above `n` are stored that the gap leaves, the gap search over the symbol's stored ticks after
-- `_plant_sequence_gap` ends, and reports each planted `n` in exactly one break.
pub find_sequence_gaps-finds_planted :
    (pd : Pandas) (sql : SortBy) (symbol : Str) (at : DateTime) (d : Draws) (s : Simulator Table)
    (lo n hi : ℕ)
    → ltb (length (sorted (lookup_or symbol [] s.recent_sequences))) 6 ≡ false
    → any (same n) (gap_of symbol d s) ≡ true
    → has_sequence lo (rows_of symbol s.ticks) && not (any (same lo) (gap_of symbol d s)) ≡ true
    → has_sequence hi (rows_of symbol s.ticks) && not (any (same hi) (gap_of symbol d s)) ≡ true
    → lo < n
    → n < hi
    → (bs : List Break) × (find_sequence_gaps pd symbol
          (rows_of symbol (plant_sequence_gap (Timescale.store sql) symbol at d s).ticks)
        ≡ some bs)
      × (count (λ b. covers n b.detail) bs ≡ 1)
find_sequence_gaps-finds_planted pd sql symbol at d s lo n hi long planted low high below above =
    let gap = gap_of symbol d s in
    let kept = rows_of symbol (filter (λ r. not (is_listed symbol gap r)) s.ticks) in
    let missing : is_missing kept n ≡ true = ground (
      arith,
      has_sequence-kept symbol gap n s.ticks,
      any-below lo n kept below (has_sequence-kept symbol gap lo s.ticks ∙ low),
      any-above n hi kept above (has_sequence-kept symbol gap hi s.ticks ∙ high),
    ) in
    let (bs, found, counts) = find_sequence_gaps_lem pd symbol kept in
    (
      bs,
      rw (plant_sequence_gap-ticks sql symbol at d s long) found,
      counts n ∙ ap (λ b. if b then 1 else 0) missing,
    )
