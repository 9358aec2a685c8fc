-- ===== src/Capture/Read.antt =====
-- What a rebuild reads of the bucket that dataeng/bronze/run_bronze_ingestor.py leaves, where every
-- message arrives in one hour.
use mathlib.Core.List.{append_assoc}
use post_trade_reconciliatio.Prelude.{
  ℕ, ◌≡◌, refl, ap, sym, ◌∙◌, subst, Bool, true, false, ◌&&◌, not, Option, none, some, List, [],
  ◌∷◌, ◌++◌, map, filter, filter-append, is_empty, if◌then◌else◌, All, arith, Bool-cases, inl, inr,
}
use post_trade_reconciliatio.Prelude.Str.{Str, str, str_eq, nat_eq, same, starts_with, Str-discrete}
use post_trade_reconciliatio.Prelude.Split.{has_char, has_break, splitlines, splitlines-join}
use post_trade_reconciliatio.Prelude.Members.{All-of_any}
use post_trade_reconciliatio.Models.{DateTime}
use post_trade_reconciliatio.Ingest.{no_json, not_object, object, Number, Loaded, is_relevant}
use post_trade_reconciliatio.Ingest.Raising.{is_fatal}
use post_trade_reconciliatio.Bronze.{partition_key, object_body}
use post_trade_reconciliatio.Bronze.Landing.{lines_of}
use post_trade_reconciliatio.Silver.{read_bronze_lines, bronze_prefix}
use post_trade_reconciliatio.Discovery.Landed.{keys-lines_of}
use post_trade_reconciliatio.Capture.{Event, arrives, interval_ends, main}
use post_trade_reconciliatio.Capture.Kept.{IsAt, partition_key-injective}
use post_trade_reconciliatio.Capture.Landed.{
  text_of, text_of_product, texts, main-HasLines, main-lines_of,
}

-- A prefix whose first part has no `c`, of a text whose first part has none.
starts_with-part :
    (c : ℕ) (a b prefix s : Str)
    → has_char c a ≡ false
    → has_char c b ≡ false
    → starts_with (a ++ c ∷ prefix) (b ++ c ∷ s) ≡ same a b && starts_with prefix s
starts_with-part c [] [] prefix s h k = ground arith
starts_with-part c [] (y ∷ b) prefix s h k = ground (arith, k)
starts_with-part c (x ∷ a) [] prefix s h k = ground (arith, h)
starts_with-part c (x ∷ a) (y ∷ b) prefix s h k = ground (arith, starts_with-part c a b prefix s)

starts_with-append : (a prefix s : Str) → starts_with (a ++ prefix) (a ++ s) ≡ starts_with prefix s
starts_with-append [] prefix s = refl
starts_with-append (x ∷ a) prefix s = ground (arith, starts_with-append a prefix s)

starts_with-own : (prefix s : Str) → starts_with prefix (prefix ++ s) ≡ true
starts_with-own [] s = refl
starts_with-own (x ∷ prefix) s = ground (arith, starts_with-own prefix s)

-- A message's product has no slash.
abbrev pub IsProduct : Option Str → Type 0
IsProduct none = Unit
IsProduct (some symbol) = has_char b'/' symbol ≡ false

abbrev pub IsNamed : Loaded → Type 0
IsNamed no_json = Unit
IsNamed not_object = Unit
IsNamed (object msg) = IsProduct msg.product_id

-- An event whose message has a product without a slash, if it has one.
abbrev pub IsFit : (Str → Loaded) → Event → Type 0
IsFit loads (arrives a date hour now) = IsNamed (loads a.raw)
IsFit loads (interval_ends now) = Unit

-- A text that `splitlines` leaves whole.
abbrev pub IsLine : Str → Type 0
IsLine line = has_break line ≡ false

splitlines-object_body :
    (lines : List Str)
    → is_empty lines ≡ false
    → All IsLine lines
    → splitlines (object_body lines) ≡ lines
splitlines-object_body [] e h = ground (arith, e)
splitlines-object_body (line ∷ lines) e h = splitlines-join line lines h

All-left : (P : Str → Type 0) (xs ys : List Str) → All P (xs ++ ys) → All P xs
All-left P [] ys h = tt
All-left P (x ∷ xs) ys h = (h.0, All-left P xs ys h.1)

All-right : (P : Str → Type 0) (xs ys : List Str) → All P (xs ++ ys) → All P ys
All-right P [] ys h = h
All-right P (x ∷ xs) ys h = All-right P xs ys h.1

if-is_empty :
    (b : Bool) (ls : List Str) → is_empty (if b then ls else []) ≡ false → is_empty ls ≡ false
if-is_empty true ls h = h
if-is_empty false ls h = ground (arith, h)

unless-is_empty :
    (b : Bool) (ls : List Str) → is_empty (if b then [] else ls) ≡ false → is_empty ls ≡ false
unless-is_empty true ls h = ground (arith, h)
unless-is_empty false ls h = h

append-is_empty :
    (xs ys : List Str) → is_empty xs ≡ true → is_empty (xs ++ ys) ≡ false → is_empty ys ≡ false
append-is_empty [] ys e h = h
append-is_empty (x ∷ xs) ys e h = ground (arith, e)

module _ (date hour : Str) where
  -- The partition of some symbol in the hour.
  abbrev pub IsOf : Str → Type 0
  IsOf q = (symbol : Str) × (q ≡ partition_key symbol date hour) × (has_char b'/' symbol ≡ false)

  prefix-partition_key :
      (symbol other : Str)
      → has_char b'/' symbol ≡ false
      → has_char b'/' other ≡ false
      → starts_with (bronze_prefix symbol date) (partition_key other date hour ++ str "/")
        ≡ same other symbol
  prefix-partition_key symbol other h k =
      let day = str "date=" ++ date ++ str "/" in
      let shape : bronze_prefix symbol date ≡ str "ticks/symbol=" ++ (symbol ++ b'/' ∷ day) =
        simp append_assoc in
      let key : partition_key other date hour ++ str "/"
          ≡ str "ticks/symbol=" ++ (other ++ b'/' ∷ (day ++ (str "hour=" ++ hour ++ str "/"))) =
        simp append_assoc in
      ap (λ x. starts_with x (partition_key other date hour ++ str "/")) shape
      ∙ ap (starts_with (str "ticks/symbol=" ++ (symbol ++ b'/' ∷ day))) key
      ∙ starts_with-append (str "ticks/symbol=") (symbol ++ b'/' ∷ day)
          (other ++ b'/' ∷ (day ++ (str "hour=" ++ hour ++ str "/")))
      ∙ starts_with-part b'/' symbol other day (day ++ (str "hour=" ++ hour ++ str "/")) h k
      ∙ rw (starts_with-own day (str "hour=" ++ hour ++ str "/"))
          (ground (arith, λ (e : symbol ≡ other). sym e, λ (e : other ≡ symbol). sym e))

  -- The rebuild's prefix selects exactly the symbol's partition.
  prefix-IsOf :
      (symbol q : Str)
      → has_char b'/' symbol ≡ false
      → IsOf q
      → starts_with (bronze_prefix symbol date) (q ++ str "/")
        ≡ same q (partition_key symbol date hour)
  prefix-IsOf symbol q h (other, e, k) =
      subst
        (λ x.
          starts_with (bronze_prefix symbol date) (x ++ str "/")
          ≡ same x (partition_key symbol date hour))
        (sym e)
        (prefix-partition_key symbol other h k
          ∙ ground (
            arith,
            partition_key-injective other symbol date hour,
            λ (p : other ≡ symbol). ap (λ x. partition_key x date hour) p,
          ))

  read_bronze_lines-lines_of :
      (is_blank : Str → Bool) (symbol : Str) (bucket : List (Str × List Str))
      → has_char b'/' symbol ≡ false
      → All IsOf (map (λ o. o.0) bucket)
      → All (λ o. is_empty o.1 ≡ false) bucket
      → All IsLine (lines_of (partition_key symbol date hour) bucket)
      → read_bronze_lines is_blank (bronze_prefix symbol date) bucket
        ≡ filter (λ line. not (is_blank line)) (lines_of (partition_key symbol date hour) bucket)
  unfolding read_bronze_lines
  read_bronze_lines-lines_of is_blank symbol [] h keys full plain = refl
  read_bronze_lines-lines_of is_blank symbol (o ∷ bucket) h keys full plain =
      let test = prefix-IsOf symbol o.0 h keys.0 in
      let later = lines_of (partition_key symbol date hour) bucket in
      elim (Bool-cases (same o.0 (partition_key symbol date hour))) [
        | inl e ↦
            let lines : All IsLine (o.1 ++ later) =
              subst (All IsLine) (ap (λ b. if b then o.1 ++ later else later) e) plain in
            rw
              (
                test,
                e,
                splitlines-object_body o.1 full.0 (All-left IsLine o.1 later lines),
                read_bronze_lines-lines_of is_blank symbol bucket h keys.1 full.1
                    (All-right IsLine o.1 later lines),
              )
              (sym (filter-append (λ line. not (is_blank line)) o.1 later))
        | inr e ↦
            let lines : All IsLine later =
              subst (All IsLine) (ap (λ b. if b then o.1 ++ later else later) e) plain in
            rw (test, e, read_bronze_lines-lines_of is_blank symbol bucket h keys.1 full.1 lines)
              refl
      ]

  product-IsOf :
      (q : Str) (product : Option Str) (raw : Str)
      → IsProduct product
      → is_empty (text_of_product q product raw date hour) ≡ false
      → IsOf q
  product-IsOf q none raw named h = ground (arith, h)
  product-IsOf q (some symbol) raw named h =
      elim (Str-discrete (partition_key symbol date hour) q) [
        | yes p ↦ (symbol, sym p, named)
        | no d ↦ ground (arith, h)
      ]

  text_of-IsOf :
      (q : Str) (msg : Loaded) (raw : Str)
      → IsNamed msg
      → is_empty (text_of q msg raw date hour) ≡ false
      → IsOf q
  text_of-IsOf q no_json raw named h = ground (arith, h)
  text_of-IsOf q not_object raw named h = ground (arith, h)
  text_of-IsOf q (object msg) raw named h =
      product-IsOf q msg.product_id raw named (if-is_empty (is_relevant msg.msg_type) _ h)

  module _ (decimal : Str → Number) (fromisoformat : Str → Option DateTime)
      (loads : Str → Loaded) where
    texts-IsOf :
        (q : Str) (events : List Event)
        → All (IsFit loads) events
        → All (IsAt date hour) events
        → is_empty (texts decimal fromisoformat loads q events) ≡ false
        → IsOf q
    texts-IsOf q [] fit at h = ground (arith, h)
    texts-IsOf q (interval_ends now ∷ events) fit at h = texts-IsOf q events fit.1 at.1 h
    texts-IsOf q (arrives a d hr now ∷ events) fit at h =
        let text = text_of q (loads a.raw) a.raw d hr in
        let b = is_fatal decimal fromisoformat (loads a.raw) in
        let later = texts decimal fromisoformat loads q events in
        elim (Bool-cases (is_empty text)) [
          | inl e ↦
              texts-IsOf q events fit.1 at.1
                (unless-is_empty b later (append-is_empty text (if b then [] else later) e h))
          | inr e ↦ text_of-IsOf q (loads a.raw) a.raw fit.0 (
              ap (λ x. is_empty (text_of q (loads a.raw) a.raw x hour)) (sym at.0.0)
              ∙ ap (λ x. is_empty (text_of q (loads a.raw) a.raw d x)) (sym at.0.1)
              ∙ e)
        ]

    -- A rebuild reads the texts of the symbol that arrived, but for those of white space.
    pub read_bronze_lines-main :
        (is_blank : Str → Bool) (symbol : Str) (flush_max_lines flush_max_seconds : ℕ)
        (events : List Event)
        → has_char b'/' symbol ≡ false
        → All (IsFit loads) events
        → All (IsAt date hour) events
        → All IsLine (texts decimal fromisoformat loads (partition_key symbol date hour) events)
        → read_bronze_lines is_blank
            (bronze_prefix symbol date)
            (main decimal fromisoformat loads flush_max_lines flush_max_seconds events).bucket
          ≡ filter
              (λ line. not (is_blank line))
              (texts decimal fromisoformat loads (partition_key symbol date hour) events)
    read_bronze_lines-main is_blank symbol flush_max_lines flush_max_seconds events h fit at plain =
        let end = main decimal fromisoformat loads flush_max_lines flush_max_seconds events in
        let lines = λ (q : Str).
          (main-lines_of decimal fromisoformat loads q flush_max_lines flush_max_seconds
            events).0 in
        let full =
          main-HasLines decimal fromisoformat loads flush_max_lines flush_max_seconds events in
        read_bronze_lines-lines_of is_blank symbol end.bucket h
          (All-of_any IsOf (map (λ o. o.0) end.bucket) (λ q m.
            texts-IsOf q events fit at
              (ground (arith, m, keys-lines_of q end.bucket full, lines q))))
          full (subst (All IsLine) (sym (lines (partition_key symbol date hour))) plain)
        ∙ ap (filter (λ line. not (is_blank line))) (lines (partition_key symbol date hour))
