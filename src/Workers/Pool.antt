-- ===== src/Workers/Pool.antt =====
-- workers/worker_pool.py: the names of the workers and the dict of what each has processed. The
-- processes run on their own; `as_completed` gives the names in the order in which they end.
use post_trade_reconciliatio.Prelude.{
  ℕ, zero, suc, ◌+◌, ◌≡◌, refl, ap, Option, none, some, List, [], ◌∷◌, ◌++◌, map, any,
  if◌then◌else◌, arith, ◌==◌,
}
use post_trade_reconciliatio.Prelude.Str.{Str, str, same, str_eq}
use post_trade_reconciliatio.Prelude.Show.{show}
use post_trade_reconciliatio.Prelude.Dict.{Dict, lookup, insert, lookup-insert}

-- `range(n)`, from `i` on
abbrev pub range_from : ℕ → ℕ → List ℕ
range_from i zero = []
range_from i (suc n) = i ∷ range_from (i + 1) n

-- `size or settings.worker_pool_size`
abbrev pub size_or : Option ℕ → ℕ → ℕ
size_or none default = default
size_or (some size) default = if size == 0 then default else size

abbrev pub worker_name : ℕ → Str
worker_name i = str "worker-" ++ show i

-- The submitted calls: each worker's name and metrics port.
unfoldable pub submissions : Option ℕ → ℕ → ℕ → List (Str × ℕ)
submissions size default metrics_port_base =
    map (λ i. (worker_name i, metrics_port_base + i)) (range_from 0 (size_or size default))

-- `results[name] = future.result()` for each future of `as_completed`
unfoldable pub collect : (Str → ℕ) → List Str → Dict Str ℕ → Dict Str ℕ
collect result [] results = results
collect result (name ∷ completed) results =
    collect result completed (insert name (result name) results)

lookup-collect :
    (result : Str → ℕ) (completed : List Str) (results : Dict Str ℕ) (k : Str)
    → lookup k (collect result completed results)
      ≡ (if any (same k) completed then some (result k) else lookup k results)
unfolding collect
lookup-collect result [] results k = refl
lookup-collect result (name ∷ completed) results k = ground (
  arith,
  lookup-collect result completed (insert name (result name) results) k,
  lookup-insert k name (result name) results,
  λ (p : k ≡ name). ap result p,
)

-- In whatever order the workers end, the pool's dict gives each worker that has ended the number
-- that it has returned, and no other name a value.
collect-lookup :
    (result : Str → ℕ) (completed : List Str) (k : Str)
    → lookup k (collect result completed [])
      ≡ (if any (same k) completed then some (result k) else none)
collect-lookup result completed k = lookup-collect result completed [] k
