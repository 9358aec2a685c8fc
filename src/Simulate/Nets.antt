-- ===== src/Simulate/Nets.antt =====
-- The net quantity of a symbol's fills when simulate/trade_book_simulator.py appends one.
use post_trade_reconciliatio.Prelude.{
  ℕ, ◌+◌, ◌<◌, ◌≡◌, ◌≢◌, refl, sym, ap, ◌∙◌, List, [], ◌∷◌, ◌++◌, map, arith, All, filter,
  if◌then◌else◌, Bool-cases, inl, inr,
}
use post_trade_reconciliatio.Prelude.Int.{pos, ◌+ℤ◌, neg, sum, +ℤ_comm, +ℤ_assoc, zero_+ℤ}
use post_trade_reconciliatio.Prelude.Str.{Str, Str-discrete, same, str, str_eq}
use post_trade_reconciliatio.Models.{Decimal, Fill, buy, sell, Side, side_value}
use post_trade_reconciliatio.Storage.Rows.{FillRow}
use post_trade_reconciliatio.Storage.Book.{fill_row}
use post_trade_reconciliatio.Reconcile.{signed_quantity}
use post_trade_reconciliatio.Reconcile.Specification.{position_at}
use post_trade_reconciliatio.Simulate.{signed}

-- A symbol's rows.
abbrev pub of_symbol : Str → List FillRow → List FillRow
of_symbol symbol = filter (λ g. same g.symbol symbol)

-- A row with the symbol joins its rows; another leaves them.
pub of_symbol-snoc :
    (symbol : Str) (fills : List FillRow) (r : FillRow)
    → r.symbol ≡ symbol
    → of_symbol symbol (fills ++ r ∷ []) ≡ of_symbol symbol fills ++ r ∷ []
of_symbol-snoc symbol [] r e = ground arith
of_symbol-snoc symbol (f ∷ fills) r e = ground (arith, of_symbol-snoc symbol fills r e)

pub of_symbol-snoc_other :
    (symbol : Str) (fills : List FillRow) (r : FillRow)
    → r.symbol ≢ symbol
    → of_symbol symbol (fills ++ r ∷ []) ≡ of_symbol symbol fills
of_symbol-snoc_other symbol [] r e = ground arith
of_symbol-snoc_other symbol (f ∷ fills) r e = ground (arith, of_symbol-snoc_other symbol fills r e)

-- The net quantity of a symbol's rows.
abbrev pub net : Str → List FillRow → Decimal
net symbol fills = sum (map signed_quantity (of_symbol symbol fills))

-- The test of the text `side` is the test of the enum.
by_side :
    (side : Side) (q : Decimal)
    → (if same (side_value side) (str "buy") then q else neg q)
      ≡ (elim side [ buy ↦ q | sell ↦ neg q ])
unfolding side_value Str-discrete
by_side buy q = refl
by_side sell q = refl

-- A row keeps the sign of its fill.
pub signed_quantity-fill_row : (f : Fill) → signed_quantity (fill_row f) ≡ signed f
unfolding fill_row side_value Str-discrete
signed_quantity-fill_row f = by_side f.side f.quantity

-- A row's part in the net quantity of a symbol.
abbrev pub share : Str → FillRow → Decimal
share symbol r = if same r.symbol symbol then signed_quantity r else pos 0

net-cons :
    (symbol : Str) (f : FillRow) (fills : List FillRow)
    → net symbol (f ∷ fills) ≡ share symbol f +ℤ net symbol fills
net-cons symbol f fills = elim (Bool-cases (same f.symbol symbol)) [
  | inl e ↦ rw e refl
  | inr e ↦ rw e (sym (zero_+ℤ (net symbol fills)))
]

pub net-snoc :
    (symbol : Str) (fills : List FillRow) (r : FillRow)
    → net symbol (fills ++ r ∷ []) ≡ net symbol fills +ℤ share symbol r
net-snoc symbol [] r = net-cons symbol r [] ∙ +ℤ_comm (share symbol r) (pos 0)
net-snoc symbol (f ∷ fills) r =
    net-cons symbol f (fills ++ r ∷ [])
    ∙ ap (◌+ℤ◌ (share symbol f)) (net-snoc symbol fills r)
    ∙ sym (+ℤ_assoc (share symbol f) (net symbol fills) (share symbol r))
    ∙ ap (λ x. x +ℤ share symbol r) (sym (net-cons symbol f fills))

-- All of a symbol's rows come before a sequence.
abbrev pub Before : Str → ℕ → List FillRow → Type 0
Before symbol n = All (λ f. (f.symbol ≡ symbol) → f.sequence < n)

pub position_at-snoc :
    (symbol : Str) (fills : List FillRow) (r : FillRow) (n : ℕ)
    → (r.symbol ≡ symbol → n < r.sequence)
    → position_at (of_symbol symbol (fills ++ r ∷ [])) n ≡ position_at (of_symbol symbol fills) n
position_at-snoc symbol [] r n h = ground arith
position_at-snoc symbol (f ∷ fills) r n h = ground (arith, position_at-snoc symbol fills r n h)

-- After the latest fill the position is the net quantity.
pub position_at-latest :
    (symbol : Str) (fills : List FillRow) (n : ℕ)
    → Before symbol (n + 1) fills
    → position_at (of_symbol symbol fills) n ≡ net symbol fills
position_at-latest symbol [] n h = refl
position_at-latest symbol (f ∷ fills) n h =
    ground (arith, h.0, position_at-latest symbol fills n h.1)
