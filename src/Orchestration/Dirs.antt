-- ===== src/Orchestration/Dirs.antt =====
-- The output directories of the silver partitions, and what a rebuild leaves in them.
use mathlib.Core.List.{append-nil, append_assoc, append_cancel_left}
use post_trade_reconciliatio.Prelude.{
  ◌≡◌, refl, sym, ap, ◌∙◌, false, not, List, [], ◌∷◌, ◌++◌, filter, filter-append, arith,
  ℕ_discrete,
}
use post_trade_reconciliatio.Prelude.Str.{Str, str, str_eq, nat_eq, same}
use post_trade_reconciliatio.Prelude.Split.{has_char, split, split-append, split-part}
use post_trade_reconciliatio.Models.{Tick}
use post_trade_reconciliatio.Silver.{Files, partition_dir, rewrite}
use post_trade_reconciliatio.Discovery.{Partition, partition_eq}

-- The files of one directory.
abbrev pub files_at : Str → Files → Files
files_at dir = filter (λ f. same f.0 dir)

-- What a rebuild leaves in its own directory.
abbrev pub own : List Tick → Str → Files
own [] dir = []
own (t ∷ ticks) dir = (dir, t ∷ ticks) ∷ []

files_at-others :
    (dir : Str) (files : Files) → files_at dir (filter (λ f. not (same f.0 dir)) files) ≡ []
files_at-others dir [] = refl
files_at-others dir (f ∷ files) = ground (arith, files_at-others dir files)

files_at-kept :
    (dir other : Str) (files : Files)
    → same dir other ≡ false
    → files_at dir (filter (λ f. not (same f.0 other)) files) ≡ files_at dir files
files_at-kept dir other [] h = refl
files_at-kept dir other (f ∷ files) h = ground (arith, files_at-kept dir other files h)

files_at-own : (dir : Str) (ticks : List Tick) → files_at dir (own ticks dir) ≡ own ticks dir
files_at-own dir [] = refl
files_at-own dir (t ∷ ticks) = ground arith

files_at-own_other :
    (dir other : Str) (ticks : List Tick)
    → same dir other ≡ false
    → files_at dir (own ticks other) ≡ []
files_at-own_other dir other [] h = refl
files_at-own_other dir other (t ∷ ticks) h = ground arith

pub rewrite-own :
    (dir : Str) (ticks : List Tick) (files : Files)
    → rewrite dir ticks files ≡ filter (λ f. not (same f.0 dir)) files ++ own ticks dir
unfolding rewrite
rewrite-own dir [] files = sym (append-nil _)
rewrite-own dir (t ∷ ticks) files = refl

pub files_at-rewrite :
    (dir : Str) (ticks : List Tick) (files : Files)
    → files_at dir (rewrite dir ticks files) ≡ own ticks dir
files_at-rewrite dir ticks files =
    rw
      (
        rewrite-own dir ticks files,
        filter-append (λ f. same f.0 dir) (filter (λ f. not (same f.0 dir)) files) (own ticks dir),
        files_at-others dir files,
        files_at-own dir ticks,
      )
      refl

pub files_at-rewrite_other :
    (dir other : Str) (ticks : List Tick) (files : Files)
    → same dir other ≡ false
    → files_at dir (rewrite other ticks files) ≡ files_at dir files
files_at-rewrite_other dir other ticks files h =
    rw
      (
        rewrite-own other ticks files,
        filter-append (λ f. same f.0 dir) (filter (λ f. not (same f.0 other)) files)
            (own ticks other),
        files_at-kept dir other files h,
        files_at-own_other dir other ticks h,
      )
      (append-nil _)

-- Directories of different partitions are different.
abbrev pub IsNamed : Partition → Type 0
IsNamed p = (has_char b'/' p.0 ≡ false) × (has_char b'/' p.1 ≡ false)

abbrev pub dir_of : Str → Partition → Str
dir_of output_dir p = partition_dir output_dir p.0 p.1

from_symbol : Str → Str → Str
from_symbol symbol date = (str "symbol=" ++ symbol) ++ b'/' ∷ (str "date=" ++ date)

dir_text :
    (output_dir : Str) (p : Partition)
    → dir_of output_dir p ≡ output_dir ++ b'/' ∷ (str "ticks" ++ b'/' ∷ from_symbol p.0 p.1)
unfolding from_symbol
dir_text output_dir p = simp append_assoc

parts_of_dir :
    (symbol date : Str)
    → IsNamed (symbol, date)
    → split b'/' (str "ticks" ++ b'/' ∷ from_symbol symbol date)
      ≡ str "ticks" ∷ (str "symbol=" ++ symbol) ∷ (str "date=" ++ date) ∷ []
unfolding ℕ_discrete from_symbol
parts_of_dir symbol date h =
    split-append b'/' (str "ticks") (from_symbol symbol date) refl
    ∙ ap (◌∷◌ (str "ticks")) (
        split-append b'/' (str "symbol=" ++ symbol) (str "date=" ++ date) h.0
        ∙ ap (◌∷◌ (str "symbol=" ++ symbol)) (split-part b'/' (str "date=" ++ date) h.1))

second_third : List Str → Str × Str
second_third (name ∷ symbol ∷ date ∷ rest) = (symbol, date)
second_third parts = ([], [])

pub dir_of-injective :
    (output_dir : Str) (p q : Partition)
    → IsNamed p
    → IsNamed q
    → dir_of output_dir p ≡ dir_of output_dir q
    → p ≡ q
unfolding second_third
dir_of-injective output_dir p q h k e =
    let below =
      append_cancel_left output_dir _ _ (sym (dir_text output_dir p) ∙ e ∙ dir_text output_dir q) in
    let parts =
      ap second_third
        (sym (parts_of_dir p.0 p.1 h) ∙ ap (split b'/') (ap tail below) ∙ parts_of_dir q.0 q.1 k) in
    let symbols = append_cancel_left (str "symbol=") p.0 q.0 (ap (λ x. x.0) parts) in
    let dates = append_cancel_left (str "date=") p.1 q.1 (ap (λ x. x.1) parts) in
    cc (symbols, dates)
  where
    tail : Str → Str
    tail [] = []
    tail (c ∷ s) = s
