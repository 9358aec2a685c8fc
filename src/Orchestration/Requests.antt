-- ===== src/Orchestration/Requests.antt =====
-- How often the sensor of dataeng/orchestration/sensors.py requests a partition.
use post_trade_reconciliatio.Prelude.{
  ℕ, ◌+◌, ◌≡◌, refl, ap, ◌∙◌, Bool, true, false, not, Option, none, some, List, [], ◌∷◌, ◌++◌, map,
  filter, any, any-append, any-map, any-ext, count, All, is_empty, if◌then◌else◌, arith, ℕ_discrete,
}
use post_trade_reconciliatio.Prelude.Str.{Str, str_eq, nat_eq, same}
use post_trade_reconciliatio.Prelude.Split.{
  has_char, split_once, split_once-append, split-join, join,
}
use post_trade_reconciliatio.Prelude.Ordered.{count-sorted_by}
use post_trade_reconciliatio.Discovery.{Partition, partition_eq}
use post_trade_reconciliatio.Discovery.Once.{HasOnce}
use post_trade_reconciliatio.Orchestration.{
  parts_eq, leb_partition, seen, was_seen, new_cursor, new_bronze_partition_sensor, evaluations,
}

-- The cursor's two separators cannot be taken for a part of the symbol or of the date.
abbrev pub IsSeparable : Partition → Type 0
IsSeparable p =
    (has_char b'|' p.0 ≡ false) × (has_char b',' p.0 ≡ false) × (has_char b',' p.1 ≡ false)

abbrev pair_text : Partition → Str
pair_text p = p.0 ++ b'|' ∷ p.1

pair_text-plain : (p : Partition) → IsSeparable p → has_char b',' (pair_text p) ≡ false
unfolding ℕ_discrete
pair_text-plain p h = any-append (same b',') p.0 (b'|' ∷ p.1) ∙ ground (arith, h.1, h.2)

pair_texts-plain :
    (ps : List Partition)
    → All IsSeparable ps
    → All (λ t. has_char b',' t ≡ false) (map pair_text ps)
pair_texts-plain [] h = tt
pair_texts-plain (p ∷ ps) h = (pair_text-plain p h.0, pair_texts-plain ps h.1)

is_empty-append : (s rest : Str) (c : ℕ) → is_empty (s ++ c ∷ rest) ≡ false
is_empty-append [] rest c = refl
is_empty-append (d ∷ s) rest c = refl

read_back :
    (ps : List Partition)
    → All IsSeparable ps
    → map (split_once b'|') (filter (λ pair. not (is_empty pair)) (map pair_text ps))
      ≡ map (λ p. p.0 ∷ p.1 ∷ []) ps
read_back [] h = refl
read_back (p ∷ ps) h =
    rw (is_empty-append p.0 p.1 b'|', split_once-append b'|' p.0 p.1 h.0.0, read_back ps h.1) refl

is_empty-join :
    (p : Partition) (ps : List Partition) → is_empty (join b',' (map pair_text (p ∷ ps))) ≡ false
unfolding join
is_empty-join p [] = is_empty-append p.0 p.1 b'|'
is_empty-join p (q ∷ ps) = is_empty-append (pair_text p) (join b',' (map pair_text (q ∷ ps))) b','

seen-new_cursor :
    (ps : List Partition)
    → All IsSeparable ps
    → seen (some (new_cursor ps)) ≡ map (λ p. p.0 ∷ p.1 ∷ []) ps
unfolding new_cursor join
seen-new_cursor [] h = refl
seen-new_cursor (p ∷ ps) h =
    rw
      (
        is_empty-join p ps,
        split-join b',' (pair_text p) (map pair_text ps) (pair_texts-plain (p ∷ ps) h),
        read_back (p ∷ ps) h,
      )
      refl

first_two : List Str → Partition
first_two (s ∷ d ∷ rest) = (s, d)
first_two rest = ([], [])

same-parts : (p q : Partition) → same (p.0 ∷ p.1 ∷ []) (q.0 ∷ q.1 ∷ []) ≡ same p q
unfolding first_two
same-parts p q = ground (
  arith,
  λ (e : p ≡ q). ap (λ x. x.0 ∷ x.1 ∷ []) e,
  λ (e : p.0 ∷ p.1 ∷ [] ≡ q.0 ∷ q.1 ∷ []). ap first_two e,
)

-- What the next evaluation has seen is what was available.
pub was_seen-new_cursor :
    (p : Partition) (ps : List Partition)
    → All IsSeparable ps
    → was_seen (some (new_cursor ps)) p ≡ any (same p) ps
was_seen-new_cursor p ps h =
    ap (any (same (p.0 ∷ p.1 ∷ []))) (seen-new_cursor ps h)
    ∙ any-map (λ q. q.0 ∷ q.1 ∷ []) (same (p.0 ∷ p.1 ∷ [])) ps
    ∙ any-ext (λ q. same (p.0 ∷ p.1 ∷ []) (q.0 ∷ q.1 ∷ [])) (same p) ps (same-parts p)

-- No partition leaves the bronze bucket.
abbrev pub Grows : List Partition → List (List Partition) → Type 0
Grows before [] = Unit
Grows before (available ∷ later) =
    ((p : Partition) → any (same p) before ≡ true → any (same p) available ≡ true)
    × Grows available later

count-filter_new :
    (p : Partition) (old : Partition → Bool) (ps : List Partition)
    → count (same p) (filter (λ q. not (old q)) ps) ≡ (if old p then 0 else count (same p) ps)
count-filter_new p old [] = ground arith
count-filter_new p old (q ∷ ps) = ground (arith, count-filter_new p old ps, λ (e : p ≡ q). ap old e)

count-append :
    (p : Partition → Bool) (xs ys : List Partition) → count p (xs ++ ys) ≡ count p xs + count p ys
count-append p [] ys = omega arith
count-append p (x ∷ xs) ys = omega (arith, count-append p xs ys)

-- How often a partition is requested, by what the cursor has.
count-requests :
    (p : Partition) (cursor : Option Str) (available : List Partition)
    → HasOnce available
    → count (same p) (new_bronze_partition_sensor cursor available).0
      ≡ (if was_seen cursor p then 0 else if any (same p) available then 1 else 0)
unfolding new_bronze_partition_sensor
count-requests p cursor available once =
    count-sorted_by leb_partition (same p) (filter (λ q. not (was_seen cursor q)) available)
    ∙ count-filter_new p (was_seen cursor) available
    ∙ ap (λ n. if was_seen cursor p then 0 else n) (once p)

count-evaluations :
    (p : Partition) (cursor : Option Str) (before : List Partition) (times : List (List Partition))
    → was_seen cursor p ≡ any (same p) before
    → All HasOnce times
    → All (All IsSeparable) times
    → Grows before times
    → count (same p) (evaluations cursor times)
      ≡ (if was_seen cursor p then 0 else if any (any (same p)) times then 1 else 0)
unfolding evaluations
count-evaluations p cursor before [] e once sep grows = ground arith
count-evaluations p cursor before (available ∷ later) e once sep grows =
    let left = some (new_cursor available) in
    count-append (same p) (new_bronze_partition_sensor cursor available).0 (evaluations left later)
    ∙ ground (
      arith,
      count-requests p cursor available once.0,
      was_seen-new_cursor p available sep.0,
      grows.0 p,
      e,
      count-evaluations p left available later (was_seen-new_cursor p available sep.0) once.1 sep.1
          grows.1,
    )

-- However often the sensor is evaluated, starting without a cursor, it requests each partition that
-- is ever available exactly once over all the evaluations, and no other, if what is available is a
-- set that never loses a partition, symbols have no `|` and no comma, and dates no comma.
pub evaluations-once :
    (p : Partition) (times : List (List Partition))
    → All HasOnce times
    → All (All IsSeparable) times
    → Grows [] times
    → count (same p) (evaluations none times) ≡ (if any (any (same p)) times then 1 else 0)
evaluations-once p times = count-evaluations p none [] times refl
