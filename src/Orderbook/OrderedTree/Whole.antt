-- ===== src/Orderbook/OrderedTree/Whole.antt =====
-- Prices that are whole numbers are in order.
use market_tick_aggregator.Prelude.{ℕ, ◌≡◌, true, false, ltb, arith}
use market_tick_aggregator.Orderbook.OrderedTree.{PriceOrder}

pub ltb_irreflexive : (a : ℕ) → ltb a a ≡ false
ltb_irreflexive a = ground arith

pub ltb_trans : (a b c : ℕ) → ltb a b ≡ true → ltb b c ≡ true → ltb a c ≡ true
ltb_trans a b c h k = ground arith

pub ltb_total : (a b : ℕ) → ltb a b ≡ false → ltb b a ≡ false → a ≡ b
ltb_total a b h k = ground arith

instance abbrev pub nat_order : PriceOrder ℕ
nat_order = record {
  below = ltb;
  below_irreflexive = ltb_irreflexive;
  below_trans = ltb_trans;
  below_total = ltb_total;
}
