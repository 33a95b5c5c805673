-- ===== src/Broker/Paper/Orders/Repeated.antt =====
-- A submission of `PaperBroker` (relay/broker.py) that is made again.
use discord_option_tailer.Base.Decimal
use discord_option_tailer.Base.{
  ==_self, Option, Option-cases, arith, bind_ok, find, inl, inr, none, not, ok, raise_if, refl,
  some, subst, true, ℕ, ◌||◌, ◌∷◌, ◌≡◌,
}
use discord_option_tailer.Base.Decimal.{Decimal}
use discord_option_tailer.Broker.Paper.Orders.{
  PaperBody, PaperBroker, PaperOrder, PaperRequest, PaperType, Tif, body_of, check_holdings, fill,
  fill_buy, fill_sale, is_order, place, same_body, same_effect, same_price, same_side, same_tif,
  same_type, submit,
}
use discord_option_tailer.Broker.Paper.Quotes.{closed_or_untradable, quote}
use discord_option_tailer.Store.Rows.{Effect, Side, same_contract_iff}

same_side_refl : (x : Side) → same_side x x ≡ true
same_side_refl x = ground arith

same_effect_refl : (x : Effect) → same_effect x x ≡ true
same_effect_refl x = ground arith

same_type_refl : (x : PaperType) → same_type x x ≡ true
same_type_refl x = ground arith

same_tif_refl : (x : Tif) → same_tif x x ≡ true
same_tif_refl x = ground arith

same_price_refl : (x : Option Decimal) → same_price x x ≡ true
same_price_refl none = refl
same_price_refl (some d) = Decimal.eq_refl d

same_body_refl : (b : PaperBody) → same_body b b ≡ true
unfolding same_body
same_body_refl b =
    let key = (same_contract_iff b.contract b.contract).1 refl in
    rw key (
      rw (same_side_refl b.side) (
        rw (same_effect_refl b.effect) (
          rw (==_self b.quantity) (
            rw (same_type_refl b.order_type) (
              rw (same_price_refl b.limit_price)
                (rw (same_price_refl b.stop_price) (same_tif_refl b.time_in_force)))))))

-- What a placed order leaves: itself first in the table, under its ID and with its body.
place-kept :
    (k : ℕ) (b : PaperBody) (p : PaperBroker) (o : PaperOrder) (p' : PaperBroker)
    → place k b p ≡ ok (o, p')
    → (p'.orders ≡ o ∷ p.orders) × (o.id ≡ k) × (o.body ≡ b)
unfolding place fill fill_buy fill_sale
place-kept k b p o p' e = bind_ok (check_holdings b p) _ e λ _ e1 h1.
    bind_ok (quote p.fixtures b.contract) _ h1 λ q e2 h2.
      bind_ok (raise_if (not p.market_open || not q.tradable) closed_or_untradable) _ h2
        λ _ e3 h3. ground arith

-- An order that the broker took is answered with the same result when it is submitted again, and the
-- broker stays as it is.
pub submit-submit :
    (r : PaperRequest) (p : PaperBroker) (o : PaperOrder) (p' : PaperBroker)
    → submit r p ≡ ok (o, p')
    → submit r p' ≡ ok (o, p')
unfolding submit
submit-submit r p o p' e = bind_ok (body_of r) _ e λ (k, b) e1 h1.
    elim (Option-cases (find (is_order k) p.orders)) [
      | inl unseen ↦
          let (table, named, bodied) = place-kept k b p o p' (ground arith) in
          rw e1 (rw table (ground (arith, same_body_refl b)))
      | inr (x, seen) ↦
          let same_broker : p ≡ p' = ground arith in
          subst (λ t. submit r t ≡ ok (o, p')) same_broker e
    ]
