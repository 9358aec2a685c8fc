-- ===== src/Storage/Ticks/Agree.antt =====
-- The two stores of storage/timeseries_store.py, one against the other behind the protocol, up to
-- what their columns make of the values.
use mathlib.Core.List.{Perm}
use mathlib.Core.List.Perm
use mathlib.Core.Option
use post_trade_reconciliatio.Prelude.{
  ℕ, ◌≡◌, refl, sym, subst, ap, ◌∙◌, Bool, Option, List, [], ◌∷◌, map, arith, filter, filter-ext,
}
use post_trade_reconciliatio.Prelude.Str.{Str, str_eq, nat_eq}
use post_trade_reconciliatio.Prelude.Sorting.{SortBy}
use post_trade_reconciliatio.Models.{Tick, Decimal, DateTime}
use post_trade_reconciliatio.Storage.Rows.{TickRow}
use post_trade_reconciliatio.Storage.Book.{in_range}
use post_trade_reconciliatio.Storage.Ticks.{TickWrites, Table, select_ticks}
use post_trade_reconciliatio.Storage.Ticks.Timescale
use post_trade_reconciliatio.Storage.Ticks.Duckdb
use post_trade_reconciliatio.Storage.Ticks.Duckdb.{Session, LocalRow, LocalTable}

-- A call of the protocol that a client makes.
pub data Call : Type 0 where
  write : Tick → Option Str → Call
  write_batch : List Tick → Option Str → Call
  count_rows : Call
  delete : Str → List ℕ → Call

-- What a call returns: nothing, a count or sequences.
pub data Answer : Type 0 where
  nothing : Answer
  counted : ℕ → Answer
  deleted : List ℕ → Answer

abbrev pub perform : {S : Type 0} → TickWrites S → Call → S → Answer × S
perform store (write tick worker) s = (nothing, store.write_tick tick worker s)
perform store (write_batch ticks worker) s =
    let (n, s') = store.write_ticks_batch ticks worker s in (counted n, s')
perform store count_rows s = (counted (store.count s), s)
perform store (delete symbol sequences) s =
    let (ns, s') = store.delete_sequences symbol sequences s in (deleted ns, s')

abbrev pub perform_all : {S : Type 0} → TickWrites S → List Call → S → List Answer × S
perform_all store [] s = ([], s)
perform_all store (call ∷ calls) s =
    let (answer, s') = perform store call s in
    let (answers, end) = perform_all store calls s' in (answer ∷ answers, end)

-- The same answer, up to the order of sequences.
pub data Agrees : Answer → Answer → Type 0 where
  both_nothing : Agrees nothing nothing
  both_counted : (n : ℕ) → Agrees (counted n) (counted n)
  both_deleted : {ms ns : List ℕ} → Perm ms ns → Agrees (deleted ms) (deleted ns)

pub data AllAgree : List Answer → List Answer → Type 0 where
  no_answers : AllAgree [] []
  next :
      {a b : Answer} {xs ys : List Answer}
      → Agrees a b
      → AllAgree xs ys
      → AllAgree (a ∷ xs) (b ∷ ys)

module _ (to_double : Decimal → Decimal) (session : Session) where
  -- A row of the TimescaleDB store in the columns of the DuckDB store: DOUBLE, and TIMESTAMP.
  abbrev pub stored : TickRow → LocalRow
  stored r = record {
    time = session.local r.time;
    symbol = r.symbol;
    sequence = r.sequence;
    price = to_double r.price;
    size = Option.map to_double r.size;
    side = r.side;
    exchange = r.exchange;
    channel = r.channel;
    ingest_time = session.local r.ingest_time;
    worker = r.worker;
  }

  abbrev pub store_all : Table → LocalTable
  store_all = map stored

  filter-store_all :
      (p : LocalRow → Bool) (t : Table)
      → filter p (store_all t) ≡ store_all (filter (λ r. p (stored r)) t)
  filter-store_all p [] = refl
  filter-store_all p (r ∷ t) = ground (arith, filter-store_all p t)

  -- The same call on a table and on what its rows are in the other store.
  record PerformsAlike (a : Answer × LocalTable) (b : Answer × Table) : Type 0 where
    answers : Agrees a.0 b.0
    rows : a.1 ≡ store_all b.1

  module _ (sql : SortBy) where
    -- On such rows `read_ticks_df` of the DuckDB store gives what it gives of the TimescaleDB store,
    -- in some order, with the prices and sizes rounded and the times without a zone, where the zone
    -- of the session repeats no hour.
    pub read_ticks_df-store_all :
        (symbol : Str) (start end : DateTime) (t : Table)
        → Perm
            (Duckdb.read_ticks_df to_double session sql symbol start end (store_all t))
            (store_all ((Timescale.store sql).read_ticks_df symbol start end t))
    unfolding select_ticks Duckdb.read_ticks_df
    read_ticks_df-store_all symbol start end t =
        let p = λ (r : LocalRow). in_range symbol start end r.symbol (session.instant r.time) in
        let q = λ (r : TickRow). in_range symbol start end r.symbol r.time in
        Perm.trans (sql.sort_by_perm LocalRow (λ r. r.time.clock) (filter p (store_all t))) (
          subst (λ u. Perm u (store_all ((Timescale.store sql).read_ticks_df symbol start end t)))
            (sym (filter-store_all p t ∙ ap store_all (filter-same t)))
            (Perm.symm (Perm.map stored (sql.sort_by_perm TickRow (λ r. r.time) (filter q t)))))
      where
        filter-same :
            (u : Table)
            → filter
                (λ r. in_range symbol start end r.symbol (session.instant (session.local r.time)))
                u
              ≡ filter (λ r. in_range symbol start end r.symbol r.time) u
        filter-same u =
            filter-ext _ _ u
              (λ r. ap (in_range symbol start end r.symbol) (session.instant-local r.time))
