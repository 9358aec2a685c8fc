-- ===== src/Storage/Ticks/Laws.antt =====
-- What the TimescaleDB store of storage/timeseries_store.py promises of its writes and its deletes.
use mathlib.Core.List.{append-nil}
use post_trade_reconciliatio.Prelude.{
  ℕ, ◌+◌, ◌≡◌, refl, sym, ap, ◌∙◌, not, ◌&&◌, Option, List, [], ◌∷◌, ◌++◌, map, arith, filter, any,
  length, Bool-cases, inl, inr, foldl,
}
use post_trade_reconciliatio.Prelude.Str.{Str, same, str_eq, nat_eq}
use post_trade_reconciliatio.Models.{Tick}
use post_trade_reconciliatio.Storage.Ticks.{Table, is_listed, sequences_of}
use post_trade_reconciliatio.Storage.Ticks.Timescale

pub append-cons :
    {A : Type 0} (xs : List A) (y : A) (ys : List A) → xs ++ y ∷ ys ≡ xs ++ y ∷ [] ++ ys
append-cons [] y ys = refl
append-cons (x ∷ xs) y ys = ap (◌∷◌ x) (append-cons xs y ys)

Timescale-each :
    (ticks : List Tick) (worker : Option Str) (t : Table)
    → foldl (λ u tick. Timescale.write_tick tick worker u) t ticks
      ≡ t ++ map (Timescale.row worker) ticks
unfolding Timescale.write_tick
Timescale-each [] worker t = sym (append-nil t)
Timescale-each (tick ∷ ticks) worker t =
    Timescale-each ticks worker (t ++ Timescale.row worker tick ∷ [])
    ∙ sym (append-cons t (Timescale.row worker tick) (map (Timescale.row worker) ticks))

-- One COPY of a batch leaves the table that writing its ticks one by one leaves, and counts them.
Timescale-write_ticks_batch :
    (ticks : List Tick) (worker : Option Str) (t : Table)
    → Timescale.write_ticks_batch ticks worker t
      ≡ (length ticks, foldl (λ u tick. Timescale.write_tick tick worker u) t ticks)
unfolding Timescale.write_ticks_batch
Timescale-write_ticks_batch [] worker t = refl
Timescale-write_ticks_batch (tick ∷ ticks) worker t =
    ap (λ u. (length (tick ∷ ticks), u)) (sym (Timescale-each (tick ∷ ticks) worker t))

module _ (symbol : Str) (sequences : List ℕ) where
  length-kept :
      (t : Table)
      → length t
        ≡ length (sequences_of (filter (is_listed symbol sequences) t))
          + length (filter (λ r. not (is_listed symbol sequences r)) t)
  length-kept [] = refl
  length-kept (r ∷ t) = elim (Bool-cases (is_listed symbol sequences r)) [
    | inl e ↦ rw e (ground (arith, length-kept t))
    | inr e ↦ rw e (ground (arith, length-kept t))
  ]

  any-deleted :
      (n : ℕ) (t : Table)
      → any (same n) (sequences_of (filter (is_listed symbol sequences) t))
        ≡ any (same n) sequences && any (λ r. same r.symbol symbol && same r.sequence n) t
  any-deleted n [] = ground arith
  any-deleted n (r ∷ t) =
      ground (arith, any-deleted n t, λ (p : n ≡ r.sequence). ap (λ m. any (same m) sequences) p)

-- What a DELETE … RETURNING sequence promises of the rows before, those after and its result.
pub record IsDeleted (symbol : Str) (sequences : List ℕ) (t : Table) (result : List ℕ × Table)
    : Type 0 where
  pub counts : length t ≡ length result.0 + length result.1
  pub returned :
      (n : ℕ)
      → any (same n) result.0
        ≡ any (same n) sequences && any (λ r. same r.symbol symbol && same r.sequence n) t
  pub rest : result.1 ≡ filter (λ r. not (is_listed symbol sequences r)) t

none_listed : (symbol : Str) (t : Table) → filter (λ r. not (is_listed symbol [] r)) t ≡ t
none_listed symbol [] = refl
none_listed symbol (r ∷ t) = ground (arith, none_listed symbol t)

-- `delete_sequences` of the TimescaleDB store removes exactly the rows of the symbol with a listed
-- sequence, and returns the sequences of the rows that it removed, one for each.
pub Timescale-delete_sequences :
    (symbol : Str) (sequences : List ℕ) (t : Table)
    → IsDeleted symbol sequences t (Timescale.delete_sequences symbol sequences t)
unfolding Timescale.delete_sequences
Timescale-delete_sequences symbol [] t = record {
  counts = omega arith;
  returned = λ n. refl;
  rest = sym (none_listed symbol t);
}
Timescale-delete_sequences symbol (s ∷ sequences) t = record {
  counts = length-kept symbol (s ∷ sequences) t;
  returned = λ n. any-deleted symbol (s ∷ sequences) n t;
  rest = refl;
}
