-- ===== src/Ingest/Concrete.antt =====
-- Concrete messages: the text after the first character is the price, which is read as the code of
-- its own first character; an empty text is no JSON.
use post_trade_reconciliatio.Prelude.{true, Option, none, some, [], ◌∷◌}
use post_trade_reconciliatio.Prelude.Int.{pos}
use post_trade_reconciliatio.Prelude.Str.{Str, str}
use post_trade_reconciliatio.Models.{DateTime}
use post_trade_reconciliatio.Ingest.{no_json, object, finite, invalid, Number, Loaded, Ingestor}

abbrev pub decimal : Str → Number
decimal [] = invalid
decimal (c ∷ _) = finite (pos c)

abbrev pub fromisoformat : Str → Option DateTime
fromisoformat raw = none

abbrev pub loads : Str → Loaded
loads [] = no_json
loads (c ∷ raw) = object (record {
  msg_type = some (str "ticker");
  product_id = some (str "BTC-USD");
  product_is_text = true;
  price = some raw;
  size = none;
  last_size = none;
  side = some (str "buy");
  time = none;
})

abbrev pub started : Ingestor
started = record {
  sequences = [];
  msg_count = 0;
  total_published = 0;
  published = [];
  has_raw_hook = true;
  landed = [];
}

-- Messages with a time, which is noon, of the product that their first character names.
abbrev pub timed : Str → Loaded
timed [] = no_json
timed (c ∷ raw) = object (record {
  msg_type = some (str "match");
  product_id = some (c ∷ []);
  product_is_text = true;
  price = some raw;
  size = none;
  last_size = none;
  side = none;
  time = some (str "t");
})

abbrev pub noon : Str → Option DateTime
noon raw = some (pos 12)
