-- ===== src/Broker/Paper/Quotes.antt =====
-- The quote fixtures of `PaperBroker` (relay/broker.py): `quote` and `nearest_expiry`.
use discord_option_tailer.Base.Decimal
use discord_option_tailer.Base.{
  Bool, Except, List, Option, [], leb, map, min, need, none, not, ok, raise, raise_if, select, some,
  ℕ, ◌&&◌, ◌>>=◌, ◌>>◌, ◌||◌, ◌∷◌,
}
use discord_option_tailer.Base.Decimal.{Decimal, is_zero}
use discord_option_tailer.Engine.Guards.{is_true}
use discord_option_tailer.Store.Rows.{Contract, same_contract}

pub data PaperError : Type 0 where
  no_quotes bad_fixture quote_ambiguous bad_quote not_standard no_tradable_flag : PaperError
  no_expiration bad_position bad_identity bad_sides : PaperError
  bad_type bad_limit_terms bad_market_terms bad_stop_terms bad_price bad_contract : PaperError
  reused_identity exceeds_holdings closed_or_untradable no_buying_power : PaperError
  no_such_order not_the_order : PaperError

-- An entry of the fixture file. A `none` is a missing value or one that the code cannot read; `zoned`
-- says whether the timestamp has a timezone.
pub record Fixture : Type 0 where
  pub contract : Option Contract
  pub bid : Option Decimal
  pub ask : Option Decimal
  pub tick_size : Option Decimal
  pub zoned : Bool
  pub standard : Bool
  pub tradable : Option Bool

pub record PaperQuote : Type 0 where
  pub bid : Decimal
  pub ask : Decimal
  pub tick_size : Decimal
  pub tradable : Bool

-- The fixtures by their keys: one that has no contract makes the whole file unreadable.
unfoldable pub keyed : List Fixture → Except PaperError (List (Contract × Fixture))
keyed [] = ok []
keyed (q ∷ qs) = do c ← need q.contract bad_fixture; rest ← keyed qs; ok ((c, q) ∷ rest)

unfoldable pub single : List (Contract × Fixture) → Except PaperError Fixture
single ((c, q) ∷ []) = ok q
single _ = raise quote_ambiguous

unfoldable pub read_quote : Fixture → Except PaperError PaperQuote
read_quote q = do
  bid ← need q.bid bad_fixture
  ask ← need q.ask bad_fixture
  tick ← need q.tick_size bad_fixture
  raise_if (is_zero ask || (Decimal.lt ask bid || (is_zero tick || not q.zoned))) bad_quote
  raise_if (not q.standard) not_standard
  tradable ← need q.tradable no_tradable_flag
  ok (record { bid = bid; ask = ask; tick_size = tick; tradable = tradable })

-- `quote`. `none` is a configuration with no quotes_file.
unfoldable pub quote : Option (List Fixture) → Contract → Except PaperError PaperQuote
quote file c = do
  qs ← need file no_quotes
  all_keyed ← keyed qs
  q ← single (select (λ e. same_contract e.0 c) all_keyed)
  read_quote q

abbrev pub is_listed : Contract → Contract × Fixture → Bool
is_listed c e =
    same_contract (record (e.0) { expiry = c.expiry }) c
    && (leb c.expiry e.0.expiry && (is_true e.1.tradable && e.1.standard))

unfoldable pub least : List ℕ → Option ℕ
least [] = none
least (x ∷ xs) = elim (least xs) [ none ↦ some x | some y ↦ some (min x y) ]

-- `nearest_expiry`
unfoldable pub nearest_expiry : Option (List Fixture) → Contract → Except PaperError Contract
nearest_expiry file c = do
  qs ← need file no_quotes
  all_keyed ← keyed qs
  day ← need (least (map (λ e. e.0.expiry) (select (is_listed c) all_keyed))) no_expiration
  ok (record c { expiry = day })
