-- ===== src/Simulate/Consistent.antt =====
-- The invariant of the book that simulate/trade_book_simulator.py writes, over the state that the
-- book's meaning rests on, and `_generate_fill` up to the fill.
use mathlib.Core.List.{Mem, Nodup, map-append, mem-append_left, mem-cons, not-mem-nil}
use mathlib.Core.Logic.Or
use mathlib.Core.HLevel.{⊥_prop}
use native.Mathlib.Bridge.{le_prop}
use post_trade_reconciliatio.Prelude.{
  ℕ, ◌+◌, ◌≤◌, ◌<◌, ◌≡◌, sym, ap, subst, ◌∙◌, false, Option, none, some, List, [], ◌∷◌, ◌++◌, map,
  arith, All, All-map, inl, inr, Bool-cases,
}
use post_trade_reconciliatio.Prelude.Int.{pos, ◌+ℤ◌, ◌≤ℤ◌, abs, +ℤ_zero}
use post_trade_reconciliatio.Prelude.Str.{Str, Str-discrete, same, str_eq}
use post_trade_reconciliatio.Prelude.Dict.{Dict, lookup_or, insert, lookup_or-insert}
use post_trade_reconciliatio.Prelude.Distinct.{Nodup-snoc}
use post_trade_reconciliatio.Models.{
  Decimal, Tick, BreakType, unmatched_fill, position_drift, sequence_gap,
}
use post_trade_reconciliatio.Storage.Rows.{FillRow, PositionRow}
use post_trade_reconciliatio.Storage.Book.{has_fill, fill_row}
use post_trade_reconciliatio.Reconcile.{signed_quantity}
use post_trade_reconciliatio.Reconcile.Specification.{position_at}
use post_trade_reconciliatio.Simulate.{Simulator, Draws, new_fill, emit_fill}
use post_trade_reconciliatio.Simulate.Nets.{
  of_symbol, of_symbol-snoc, of_symbol-snoc_other, net, Before, net-snoc, position_at-snoc,
  signed_quantity-fill_row,
}

-- The parts of a simulator that its book's meaning rests on.
pub record Core : Type 0 where
  pub fills : List FillRow
  pub positions : List PositionRow
  pub true_position : Dict Str Decimal
  pub fill_sequences : Dict Str ℕ

abbrev pub core : {S : Type 0} → Simulator S → Core
core s = record {
  fills = s.book.fills;
  positions = s.book.positions;
  true_position = s.true_position;
  fill_sequences = s.fill_sequences;
}

-- How far a recorded position may be off: at least 0.01 if a drift was planted, nothing otherwise.
abbrev pub IsError : Option BreakType → Decimal → Type 0
IsError none e = e ≡ pos 0
IsError (some unmatched_fill) e = e ≡ pos 0
IsError (some sequence_gap) e = e ≡ pos 0
IsError (some position_drift) e = pos 1_000_000 ≤ℤ abs e

pub record IsRecorded (fills : List FillRow) (p : PositionRow) : Type 0 where
  pub fill : FillRow
  pub stored : Mem fill fills
  pub is_symbols : fill.symbol ≡ p.symbol
  pub is_last : p.last_fill_id ≡ some fill.fill_id
  pub error : Decimal
  pub quantity : p.quantity ≡ position_at (of_symbol p.symbol fills) fill.sequence +ℤ error
  pub planted : IsError fill.anomaly_type error

pub record IsConsistent (c : Core) : Type 0 where
  pub ids : Nodup (map (λ f. f.fill_id) c.fills)
  pub true_positions :
      (symbol : Str) → lookup_or symbol (pos 0) c.true_position ≡ net symbol c.fills
  pub before : (symbol : Str) → Before symbol (lookup_or symbol 1 c.fill_sequences) c.fills
  pub sequences : (symbol : Str) → Nodup (map (λ f. f.sequence) (of_symbol symbol c.fills))
  pub recorded : All (IsRecorded c.fills) c.positions

Before-mem :
    (symbol : Str) (n : ℕ) (fills : List FillRow) (f : FillRow)
    → Before symbol n fills
    → Mem f fills
    → f.symbol ≡ symbol
    → f.sequence < n
Before-mem symbol n [] f b m s = absurd (not-mem-nil m)
Before-mem symbol n (g ∷ fills) f b m s =
    Or.elim le_prop (mem-cons.0 m)
      (λ e.
        subst (λ (x : FillRow). x.sequence < n) (sym e)
          (b.0 (subst (λ (x : FillRow). x.symbol ≡ symbol) e s)))
      (λ later. Before-mem symbol n fills f b.1 later s)

Before-not-mem :
    (symbol : Str) (n : ℕ) (fills : List FillRow)
    → Before symbol n fills
    → ¬ Mem n (map (λ f. f.sequence) (of_symbol symbol fills))
Before-not-mem symbol n [] b m = not-mem-nil m
Before-not-mem symbol n (f ∷ fills) b m = elim (Bool-cases (same f.symbol symbol)) [
  | inl e ↦
      let split : Mem n (f.sequence ∷ map (λ g. g.sequence) (of_symbol symbol fills)) = rw e at m in
      Or.elim ⊥_prop (mem-cons.0 split)
        (λ (q : n ≡ f.sequence). let lt = b.0 (ground arith) in omega arith)
        (Before-not-mem symbol n fills b.1)
  | inr e ↦
      let later : Mem n (map (λ g. g.sequence) (of_symbol symbol fills)) = rw e at m in
      Before-not-mem symbol n fills b.1 later
]

Before-mono :
    (symbol : Str) (m n : ℕ) (fills : List FillRow)
    → m ≤ n
    → Before symbol m fills
    → Before symbol n fills
Before-mono symbol m n [] h b = tt
Before-mono symbol m n (f ∷ fills) h b =
    (λ e. let lt = b.0 e in omega arith, Before-mono symbol m n fills h b.1)

Before-snoc :
    (symbol : Str) (n : ℕ) (fills : List FillRow) (r : FillRow)
    → Before symbol n fills
    → (r.symbol ≡ symbol → r.sequence < n)
    → Before symbol n (fills ++ r ∷ [])
Before-snoc symbol n [] r b h = (h, tt)
Before-snoc symbol n (f ∷ fills) r b h = (b.0, Before-snoc symbol n fills r b.1 h)

-- The core after a row has been appended: what `_apply_fill` and the counter make of it.
abbrev pub after_row : FillRow → Core → Core
after_row r c = record {
  fills = c.fills ++ r ∷ [];
  positions = c.positions;
  true_position =
      insert r.symbol (lookup_or r.symbol (pos 0) c.true_position +ℤ signed_quantity r)
        c.true_position;
  fill_sequences = insert r.symbol (r.sequence + 1) c.fill_sequences;
}

pub core-emit_fill :
    {S : Type 0} (tick : Tick) (d : Draws) (s : Simulator S)
    → has_fill d.fill_id s.book.fills ≡ false
    → core (emit_fill tick d s) ≡ after_row (fill_row (new_fill tick d s)) (core s)
unfolding emit_fill fill_row
core-emit_fill tick d s new = ground (arith, signed_quantity-fill_row (new_fill tick d s))

module _ (c : Core) (r : FillRow) (h : IsConsistent c) where
  IsRecorded-snoc :
      r.sequence ≡ lookup_or r.symbol 1 c.fill_sequences
      → (p : PositionRow) → IsRecorded c.fills p
      → IsRecorded (c.fills ++ r ∷ []) p
  IsRecorded-snoc next p k = record {
    fill = k.fill;
    stored = mem-append_left (r ∷ []) k.stored;
    is_symbols = k.is_symbols;
    is_last = k.is_last;
    error = k.error;
    quantity =
        k.quantity
        ∙ ap (λ x. x +ℤ k.error)
            (sym (
              position_at-snoc p.symbol c.fills r k.fill.sequence (λ e.
                let lt =
                  Before-mem r.symbol (lookup_or r.symbol 1 c.fill_sequences) c.fills k.fill
                    (h.before r.symbol) k.stored (k.is_symbols ∙ sym e) in
                omega arith)));
    planted = k.planted;
  }

  true_positions-after_row :
      (symbol : Str)
      → lookup_or symbol (pos 0) (after_row r c).true_position ≡ net symbol (c.fills ++ r ∷ [])
  true_positions-after_row symbol =
      let value = lookup_or r.symbol (pos 0) c.true_position +ℤ signed_quantity r in
      let found = lookup_or-insert symbol r.symbol (pos 0) value c.true_position in
      elim (Str-discrete r.symbol symbol) [
        | yes e ↦ ground (
          arith,
          found,
          net-snoc symbol c.fills r,
          h.true_positions r.symbol,
          ap (λ s. net s c.fills) e,
        )
        | no e ↦ ground (
          arith,
          found,
          net-snoc symbol c.fills r,
          h.true_positions symbol,
          +ℤ_zero (net symbol c.fills),
        )
      ]

  module _ (next : r.sequence ≡ lookup_or r.symbol 1 c.fill_sequences) where
    Before-after_row :
        (symbol : Str)
        → Before symbol (lookup_or symbol 1 (after_row r c).fill_sequences) (c.fills ++ r ∷ [])
    Before-after_row symbol =
        let old = lookup_or symbol 1 c.fill_sequences in
        let now = lookup_or symbol 1 (after_row r c).fill_sequences in
        let found = lookup_or-insert symbol r.symbol 1 (r.sequence + 1) c.fill_sequences in
        elim (Str-discrete r.symbol symbol) [
          | yes e ↦
              let same_next = ap (λ s. lookup_or s 1 c.fill_sequences) e in
              let is_now : now ≡ r.sequence + 1 = ground (arith, found) in
              let grows : old ≤ now = omega (arith, is_now, next, same_next) in
              Before-snoc symbol now c.fills r
                (Before-mono symbol old now c.fills grows (h.before symbol))
                (λ _. omega (arith, is_now))
          | no e ↦
              let is_old : now ≡ old = ground (arith, found) in
              Before-snoc symbol now c.fills r
                (Before-mono symbol old now c.fills (omega (arith, is_old)) (h.before symbol))
                (λ q. absurd (e q))
        ]

    sequences-after_row :
        (symbol : Str) → Nodup (map (λ f. f.sequence) (of_symbol symbol (c.fills ++ r ∷ [])))
    sequences-after_row symbol = elim (Str-discrete r.symbol symbol) [
      | yes e ↦
          let below = h.before symbol in
          let is_next : r.sequence ≡ lookup_or symbol 1 c.fill_sequences =
            next ∙ ap (λ s. lookup_or s 1 c.fill_sequences) e in
          rw (of_symbol-snoc symbol c.fills r e, map-append)
            (Nodup-snoc r.sequence (map (λ f. f.sequence) (of_symbol symbol c.fills))
              (h.sequences symbol)
              (subst (λ n. ¬ Mem n (map (λ f. f.sequence) (of_symbol symbol c.fills))) (sym is_next)
                (Before-not-mem symbol (lookup_or symbol 1 c.fill_sequences) c.fills below)))
      | no e ↦ rw (of_symbol-snoc_other symbol c.fills r e) (h.sequences symbol)
    ]

    pub after_row-IsConsistent :
        ¬ Mem r.fill_id (map (λ f. f.fill_id) c.fills) → IsConsistent (after_row r c)
    after_row-IsConsistent new = record {
      ids = rw map-append (Nodup-snoc r.fill_id (map (λ f. f.fill_id) c.fills) h.ids new);
      true_positions = true_positions-after_row;
      before = Before-after_row;
      sequences = sequences-after_row;
      recorded = All-map c.positions (IsRecorded-snoc next) h.recorded;
    }
