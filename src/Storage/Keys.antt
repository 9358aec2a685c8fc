-- ===== src/Storage/Keys.antt =====
-- The primary key of the table `fills` in storage/book_store.py.
use mathlib.Core.HLevel.{⊥_prop}
use mathlib.Core.List.{Nodup, Mem, mem-cons, not-mem-nil, map-append}
use mathlib.Core.Logic.Or
use post_trade_reconciliatio.Prelude.{
  ◌≡◌, ap, false, ◌||◌, List, [], ◌∷◌, foldl, map, arith, any, any-append, inl, inr, Bool-cases,
}
use post_trade_reconciliatio.Prelude.Str.{Str, same, str_eq}
use post_trade_reconciliatio.Prelude.Distinct.{Nodup-snoc}
use post_trade_reconciliatio.Models.{Fill}
use post_trade_reconciliatio.Storage.Rows.{FillRow}
use post_trade_reconciliatio.Storage.Book.{Book, has_fill, fill_row, write_fill}

abbrev pub ids : Book → List Str
ids b = map (λ f. f.fill_id) b.fills

abbrev pub write_fills : List Fill → Book → Book
write_fills fills b = foldl (λ c fill. write_fill fill c) b fills

pub has_fill-ids :
    (fill_id : Str) (fills : List FillRow)
    → has_fill fill_id fills ≡ false
    → ¬ Mem fill_id (map (λ f. f.fill_id) fills)
has_fill-ids fill_id [] e m = not-mem-nil m
has_fill-ids fill_id (f ∷ fills) e m =
    Or.elim ⊥_prop (mem-cons.0 m) (λ (p : fill_id ≡ f.fill_id). ground arith)
      (has_fill-ids fill_id fills (ground arith))

write_fill-ids : (fill : Fill) (b : Book) → Nodup (ids b) → Nodup (ids (write_fill fill b))
unfolding write_fill fill_row
write_fill-ids fill b h = elim (Bool-cases (has_fill fill.fill_id b.fills)) [
  | inl e ↦ rw e h
  | inr e ↦
      rw (e, map-append) (Nodup-snoc fill.fill_id (ids b) h (has_fill-ids fill.fill_id b.fills e))
]

has_fill-write_fill :
    (k : Str) (fill : Fill) (b : Book)
    → has_fill k (write_fill fill b).fills ≡ has_fill k b.fills || same fill.fill_id k
unfolding write_fill fill_row
has_fill-write_fill k fill b = ground (
  arith,
  any-append (λ (r : FillRow). same r.fill_id k) b.fills (fill_row fill ∷ []),
  λ (p : fill.fill_id ≡ k). ap (λ i. has_fill i b.fills) p,
)

-- Whatever fills are written to a book whose fill ids are unique, in whatever order and however
-- often, they stay unique, and the book has exactly the ids that it had and those of the fills.
pub write_fills-keys :
    (fills : List Fill) (b : Book)
    → Nodup (ids b)
    → Nodup (ids (write_fills fills b))
      × ((k : Str)
          → has_fill k (write_fills fills b).fills
            ≡ has_fill k b.fills || any (λ fill. same fill.fill_id k) fills)
write_fills-keys [] b h = (h, λ k. ground arith)
write_fills-keys (fill ∷ fills) b h =
    let (unique, has) = write_fills-keys fills (write_fill fill b) (write_fill-ids fill b h) in
    (unique, λ k. ground (arith, has k, has_fill-write_fill k fill b))

-- A fill that is written again changes nothing.
pub write_fill-again :
    (fill : Fill) (b : Book) → write_fill fill (write_fill fill b) ≡ write_fill fill b
unfolding write_fill fill_row
write_fill-again fill b =
    ground (
      arith,
      any-append (λ (r : FillRow). same r.fill_id fill.fill_id) b.fills (fill_row fill ∷ []),
    )
