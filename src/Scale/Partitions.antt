-- ===== src/Scale/Partitions.antt =====
-- The rows that dataeng/scale/generate_dataset.py makes for each symbol and date.
use mathlib.Core.List.{append-nil}
use native.Mathlib.Nat.{mul_assoc}
use post_trade_reconciliatio.Prelude.{
  ℕ, zero, suc, ◌+◌, ◌-◌, ◌*◌, ◌≡◌, refl, ap, sym, ◌∙◌, subst, ◌&&◌, Option, none, some, List, [],
  ◌∷◌, ◌++◌, map, filter, length, if◌then◌else◌, ltb, arith,
}
use post_trade_reconciliatio.Prelude.Str.{Str, str_eq, nat_eq, same, Str-discrete}
use post_trade_reconciliatio.Workers.Pool.{range_from}
use post_trade_reconciliatio.Scale.{
  replicate, each_repeated, repeated, Numpy, Row, symbol_name, GenerationResult, start_or,
  row_before, data_frame, generated, generate_scale_dataset,
}
use post_trade_reconciliatio.Scale.Columns.{
  suc_times, length-repeated, length-range_from, repeated_add, date_column, length-date_column,
  length-date_columns, length-symbol_column, length-sequence_column, symbol_name-injective,
  length-replicate, sequences_at, sequences_at-append, sequences_at-other, sequences_at-symbol,
  is_in,
}

-- The block of the rows of the i-th symbol.
sequences_at-block :
    (j start k i n : ℕ) (zs : List ℕ)
    → sequences_at
        (symbol_name j)
        (start + k)
        (replicate (n * length zs) (symbol_name i))
        (date_column start n (length zs))
        (repeated n zs)
      ≡ (if same i j then if is_in 0 n k then zs else [] else [])
sequences_at-block j start k i n zs = elim (Str-discrete (symbol_name i) (symbol_name j)) [
  | yes p ↦
      subst
        (λ name.
          sequences_at (symbol_name j) (start + k) (replicate (n * length zs) name)
            (date_column start n (length zs)) (repeated n zs)
          ≡ (if same i j then if is_in 0 n k then zs else [] else []))
        (sym p)
        (sequences_at-symbol (symbol_name j) start k 0 n zs
          ∙ ground (arith, symbol_name-injective i j p))
  | no d ↦
      sequences_at-other (symbol_name j) (symbol_name i) (start + k) (n * length zs)
        (date_column start n (length zs)) (repeated n zs) d
      ∙ ground (arith, λ (e : i ≡ j). d (ap symbol_name e))
]

sequences_at-all :
    (j start k i m n : ℕ) (zs : List ℕ)
    → sequences_at
        (symbol_name j)
        (start + k)
        (each_repeated (n * length zs) (map symbol_name (range_from i m)))
        (repeated m (date_column start n (length zs)))
        (repeated (m * n) zs)
      ≡ (if is_in i m j && is_in 0 n k then zs else [])
sequences_at-all j start k i zero n zs = ground arith
sequences_at-all j start k i (suc m) n zs =
    let r = length zs in
    let name = symbol_name i in
    let names = each_repeated (n * r) (map symbol_name (range_from (i + 1) m)) in
    let dates = date_column start n r in
    ap
      (sequences_at (symbol_name j) (start + k) (replicate (n * r) name ++ names)
        (dates ++ repeated m dates))
      (ap (λ c. repeated c zs) (suc_times m n) ∙ repeated_add n (m * n) zs)
    ∙ sequences_at-append (symbol_name j) (start + k) (replicate (n * r) name) names dates
        (repeated m dates) (repeated n zs) (repeated (m * n) zs)
        (length-date_column start n r ∙ sym (length-replicate (n * r) name))
        (length-repeated n zs ∙ sym (length-replicate (n * r) name))
    ∙ rw (sequences_at-block j start k i n zs, sequences_at-all j start k (i + 1) m n zs)
        (ground (arith, append-nil zs))

sequences_at-columns :
    (start i d n_symbols n_days rows : ℕ) (zs : List ℕ)
    → length zs ≡ rows
    → sequences_at
        (symbol_name i)
        (start + d)
        (each_repeated (n_days * rows) (map symbol_name (range_from 0 n_symbols)))
        (repeated n_symbols (date_column start n_days rows))
        (repeated (n_symbols * n_days) zs)
      ≡ (if ltb i n_symbols && ltb d n_days then zs else [])
sequences_at-columns start i d n_symbols n_days rows zs e =
    subst
      (λ r.
        sequences_at (symbol_name i) (start + d)
          (each_repeated (n_days * r) (map symbol_name (range_from 0 n_symbols)))
          (repeated n_symbols (date_column start n_days r)) (repeated (n_symbols * n_days) zs)
        ≡ (if ltb i n_symbols && ltb d n_days then zs else []))
      e (sequences_at-all i start d 0 n_symbols n_days zs ∙ ground arith)

module _ {Price : Type 0} where
  -- The sequence numbers of a symbol's rows of a date.
  abbrev pub numbers_of : Str → ℕ → List (Row Price) → List ℕ
  numbers_of s d rows = map (λ r. r.sequence) (filter (λ r. same r.symbol s && same r.date d) rows)

  -- A DataFrame of so many rows, with these sequence numbers for each symbol and date.
  abbrev Holds : ℕ → (Str → ℕ → List ℕ) → Option (List (Row Price)) → Type 0
  Holds n at none = ⊥
  Holds n at (some rows) = (length rows ≡ n) × ((s : Str) (d : ℕ) → numbers_of s d rows ≡ at s d)

  Holds-row_before :
      (r : Row Price) (n : ℕ) (xs : List Str) (ys zs : List ℕ) (rows : Option (List (Row Price)))
      → Holds n (λ s d. sequences_at s d xs ys zs) rows
      → Holds
          (suc n)
          (λ s d. sequences_at s d (r.symbol ∷ xs) (r.date ∷ ys) (r.sequence ∷ zs))
          (row_before r rows)
  Holds-row_before r n xs ys zs none h = elim h [ ]
  Holds-row_before r n xs ys zs (some rows) h = (ap suc h.0, λ s d. ground (arith, h.1 s d))

  data_frame-Holds :
      (xs : List Str) (ys zs : List ℕ) (ps : List Price)
      → length ys ≡ length xs
      → length zs ≡ length xs
      → length ps ≡ length xs
      → Holds (length xs) (λ s d. sequences_at s d xs ys zs) (data_frame xs ys zs ps)
  unfolding data_frame
  data_frame-Holds [] [] [] [] e f g = (refl, λ s d. refl)
  data_frame-Holds (x ∷ xs) (y ∷ ys) (z ∷ zs) (p ∷ ps) e f g =
      Holds-row_before _ (length xs) xs ys zs (data_frame xs ys zs ps)
        (data_frame-Holds xs ys zs ps (omega (arith, e)) (omega (arith, f)) (omega (arith, g)))
  data_frame-Holds [] [] [] (p ∷ ps) e f g = ground (arith, g)
  data_frame-Holds [] [] (z ∷ zs) ps e f g = ground (arith, f)
  data_frame-Holds [] (y ∷ ys) zs ps e f g = ground (arith, e)
  data_frame-Holds (x ∷ xs) [] zs ps e f g = ground (arith, e)
  data_frame-Holds (x ∷ xs) (y ∷ ys) [] ps e f g = ground (arith, f)
  data_frame-Holds (x ∷ xs) (y ∷ ys) (z ∷ zs) [] e f g = ground (arith, g)

  -- A dataset with its result: as many rows as it says, and in the partition of each symbol and each
  -- date the rows numbered from 1 on, and no row for any other number of a symbol or a date.
  abbrev pub IsGenerated : ℕ → ℕ → ℕ → ℕ → Option (GenerationResult × List (Row Price)) → Type 0
  IsGenerated start n_symbols n_days rows_per_partition none = ⊥
  IsGenerated start n_symbols n_days rows_per_partition (some (r, rows)) =
      (r.total_rows ≡ length rows)
      × ((i d : ℕ)
          → numbers_of (symbol_name i) (start + d) rows
            ≡ (if ltb i n_symbols && ltb d n_days then range_from 1 rows_per_partition else []))

  IsGenerated-Holds :
      (t : GenerationResult) (start n_symbols n_days rows_per_partition n : ℕ)
      (at : Str → ℕ → List ℕ) (rows : Option (List (Row Price)))
      → Holds n at rows
      → t.total_rows ≡ n
      → ((i d : ℕ)
          → at (symbol_name i) (start + d)
            ≡ (if ltb i n_symbols && ltb d n_days then range_from 1 rows_per_partition else []))
      → IsGenerated start n_symbols n_days rows_per_partition (generated t rows)
  IsGenerated-Holds t start n_symbols n_days rows_per_partition n at none h e f = elim h [ ]
  IsGenerated-Holds t start n_symbols n_days rows_per_partition n at (some rows) h e f =
      (e ∙ sym h.0, λ i d. h.1 (symbol_name i) (start + d) ∙ f i d)

  -- The generator never raises on its columns: it writes as many rows as it reports, and for each of
  -- its symbols and each of its dates exactly the rows numbered 1, 2, 3 and so on up to
  -- `rows_per_partition`, in their order, and none for the other numbers of a symbol or a date.
  pub generate_scale_dataset-IsGenerated :
      (np : Numpy Price) (new_year : ℕ) (output_path : Str)
      (n_symbols n_days rows_per_partition : ℕ) (start_date : Option ℕ) (seed : ℕ)
      → IsGenerated (start_or start_date new_year) n_symbols n_days rows_per_partition (
          generate_scale_dataset np new_year output_path n_symbols n_days rows_per_partition
            start_date seed)
  unfolding generate_scale_dataset
  generate_scale_dataset-IsGenerated np new_year output_path m n rows start_date seed =
      let start = start_or start_date new_year in
      let names = map symbol_name (range_from 0 m) in
      let days = map (λ d. start + d) (range_from 0 n) in
      let zs = range_from 1 rows in
      let one : rows + 1 - 1 ≡ rows = omega arith in
      let many = length-range_from 1 rows in
      let symbol_col = each_repeated (n * rows) names in
      let date_col = repeated m (date_column start n rows) in
      let sequence_col = repeated (m * n) zs in
      let prices = np.uniform seed (m * n * rows) in
      let symbol_rows = length-symbol_column m n rows in
      let date_rows = length-date_columns start m n rows in
      let sequence_rows = length-sequence_column m n rows zs many in
      rw
        (
          np.np_repeat_lem Str names (n * rows),
          np.np_repeat_lem ℕ days rows,
          np.np_tile_lem ℕ (each_repeated rows days) m,
          np.np_tile_lem ℕ (np.np_arange 1 (rows + 1)) (m * n),
          np.np_arange_lem 1 (rows + 1),
          one,
        )
        (IsGenerated-Holds _ start m n rows _ _ _
          (data_frame-Holds symbol_col date_col sequence_col prices (date_rows ∙ sym symbol_rows)
            (sequence_rows ∙ sym symbol_rows)
            (np.length-uniform seed (m * n * rows) ∙ mul_assoc m n rows ∙ sym symbol_rows))
          (mul_assoc m n rows ∙ sym symbol_rows)
          (λ i d. sequences_at-columns start i d m n rows zs many))
