-- ===== src/Scale/Tests.antt =====
-- Two symbols, two days and three rows of each partition.
use post_trade_reconciliatio.Prelude.{ℕ, ◌-◌, ◌≡◌, refl, none}
use post_trade_reconciliatio.Prelude.Str.{str}
use post_trade_reconciliatio.Prelude.Show.{show}
use post_trade_reconciliatio.Workers.Pool.{range_from}
use post_trade_reconciliatio.Scale.{
  replicate, each_repeated, repeated, Numpy, symbol_name, generate_scale_dataset,
}
use post_trade_reconciliatio.Scale.Columns.{length-replicate}
use post_trade_reconciliatio.Scale.Partitions.{IsGenerated, generate_scale_dataset-IsGenerated}

-- Every price is the seed.
abbrev constant_prices : Numpy ℕ
constant_prices = record {
  np_repeat = λ A xs n. each_repeated n xs;
  np_repeat_lem = λ A xs n. refl;
  np_tile = λ A xs n. repeated n xs;
  np_tile_lem = λ A xs n. refl;
  np_arange = λ start stop. range_from start (stop - start);
  np_arange_lem = λ start stop. refl;
  uniform = λ seed size. replicate size seed;
  length-uniform = λ seed size. length-replicate size seed;
}

generate_scale_dataset-IsGenerated_example :
    IsGenerated 19358 2 2 3 (generate_scale_dataset constant_prices 19358 (str "out") 2 2 3 none 42)
generate_scale_dataset-IsGenerated_example =
    generate_scale_dataset-IsGenerated constant_prices 19358 (str "out") 2 2 3 none 42

pads : symbol_name 7 ≡ str "SYM-007"
unfolding show
pads = refl
