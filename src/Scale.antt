-- ===== src/Scale.antt =====
-- dataeng/scale/generate_dataset.py: `generate_scale_dataset`. A date is its number of days, a
-- DataFrame its rows, and what numpy does with the columns a parameter; the times are left out.
pub mod Columns
pub mod Partitions
mod Tests
use post_trade_reconciliatio.Prelude.{
  ℕ, zero, suc, ◌+◌, ◌-◌, ◌*◌, ◌≡◌, Option, none, some, List, [], ◌∷◌, ◌++◌, map, length,
}
use post_trade_reconciliatio.Prelude.Str.{Str, str}
use post_trade_reconciliatio.Prelude.Show.{show}
use post_trade_reconciliatio.Workers.Pool.{range_from}

abbrev pub replicate : {A : Type 0} → ℕ → A → List A
replicate zero x = []
replicate (suc n) x = x ∷ replicate n x

-- Each element so many times, and the whole list so many times.
abbrev pub each_repeated : {A : Type 0} → ℕ → List A → List A
each_repeated n [] = []
each_repeated n (x ∷ xs) = replicate n x ++ each_repeated n xs

abbrev pub repeated : {A : Type 0} → ℕ → List A → List A
repeated zero xs = []
repeated (suc n) xs = xs ++ repeated n xs

-- What the code calls of numpy, with the documented behaviour that it relies on.
pub record Numpy (Price : Type 0) : Type 1 where
  pub np_repeat : (A : Type 0) → List A → ℕ → List A
  pub np_repeat_lem : (A : Type 0) (xs : List A) (n : ℕ) → np_repeat A xs n ≡ each_repeated n xs
  pub np_tile : (A : Type 0) → List A → ℕ → List A
  pub np_tile_lem : (A : Type 0) (xs : List A) (n : ℕ) → np_tile A xs n ≡ repeated n xs
  pub np_arange : ℕ → ℕ → List ℕ
  pub np_arange_lem : (start stop : ℕ) → np_arange start stop ≡ range_from start (stop - start)
  -- `default_rng(seed).uniform(1, 100_000, size)`
  pub uniform : ℕ → ℕ → List Price
  pub length-uniform : (seed size : ℕ) → length (uniform seed size) ≡ size

pub record Row (Price : Type 0) : Type 0 where
  pub symbol : Str
  pub date : ℕ
  pub sequence : ℕ
  pub price : Price

-- `f"SYM-{i:03d}"`
abbrev pub padded : ℕ → Str → Str
padded width digits = replicate (width - length digits) b'0' ++ digits

abbrev pub symbol_name : ℕ → Str
symbol_name i = str "SYM-" ++ padded 3 (show i)

pub record GenerationResult : Type 0 where
  pub total_rows : ℕ
  pub n_symbols : ℕ
  pub n_days : ℕ
  pub rows_per_partition : ℕ
  pub output_path : Str

abbrev pub start_or : Option ℕ → ℕ → ℕ
start_or none default = default
start_or (some start_date) default = start_date

module _ {Price : Type 0} where
  abbrev pub row_before : Row Price → Option (List (Row Price)) → Option (List (Row Price))
  row_before r none = none
  row_before r (some rows) = some (r ∷ rows)

  -- `pl.DataFrame` of four columns, which raises if their lengths differ.
  unfoldable pub data_frame : List Str → List ℕ → List ℕ → List Price → Option (List (Row Price))
  data_frame [] [] [] [] = some []
  data_frame (s ∷ symbols) (d ∷ dates) (q ∷ sequences) (p ∷ prices) =
      row_before (record { symbol = s; date = d; sequence = q; price = p })
        (data_frame symbols dates sequences prices)
  data_frame symbols dates sequences prices = none

  abbrev pub generated :
      GenerationResult → Option (List (Row Price)) → Option (GenerationResult × List (Row Price))
  generated r none = none
  generated r (some rows) = some (r, rows)

  -- `generate_scale_dataset`, with the rows that it writes; the days of 2023-01-01 are `new_year`.
  unfoldable pub generate_scale_dataset :
      Numpy Price
      → ℕ
      → Str
      → ℕ
      → ℕ
      → ℕ
      → Option ℕ
      → ℕ
      → Option (GenerationResult × List (Row Price))
  unfolding data_frame
  generate_scale_dataset np new_year output_path n_symbols n_days rows_per_partition start_date
        seed =
      let symbols = map symbol_name (range_from 0 n_symbols) in
      let dates = map (λ d. start_or start_date new_year + d) (range_from 0 n_days) in
      let total_rows = n_symbols * n_days * rows_per_partition in
      let symbol_col = np.np_repeat Str symbols (n_days * rows_per_partition) in
      let date_col = np.np_tile ℕ (np.np_repeat ℕ dates rows_per_partition) n_symbols in
      let sequence_col =
        np.np_tile ℕ (np.np_arange 1 (rows_per_partition + 1)) (n_symbols * n_days) in
      let price_col = np.uniform seed total_rows in
      generated
        (record {
          total_rows = total_rows;
          n_symbols = n_symbols;
          n_days = n_days;
          rows_per_partition = rows_per_partition;
          output_path = output_path;
        })
        (data_frame symbol_col date_col sequence_col price_col)
