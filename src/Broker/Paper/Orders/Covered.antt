-- ===== src/Broker/Paper/Orders/Covered.antt =====
-- The resting sales of `PaperBroker` (relay/broker.py) against its holdings.
use discord_option_tailer.Base.{
  Bool-cases, Except, Except-cases, List, Option, Option-cases, [], arith, bind_ok, false, find,
  if◌then◌else◌, inl, inr, none, not, ok, raise, raise_if, some, subst, sum_by, update, ℕ, ◌++◌,
  ◌+◌, ◌==◌, ◌||◌, ◌∷◌, ◌≡◌, ◌≤◌,
}
use discord_option_tailer.Base.Decimal.{Decimal}
use discord_option_tailer.Broker.Paper.Orders.{
  Expected, Holding, PaperBody, PaperBroker, PaperOrder, PaperRequest, add_holding, body_of,
  cancel_order, canceled_order, check_holdings, crosses, fill, fill_buy, fill_sale, filled_order,
  is_held, is_order, kept, merge, order_status, place, reserved_by, reserved_quantity,
  resting_order, restore_positions, same_type, sell_from, stop_order, submit, with_order,
}
use discord_option_tailer.Broker.Paper.Quotes.{
  PaperError, closed_or_untradable, no_such_order, quote,
}
use discord_option_tailer.Store.Rows.{Contract, is_buy, same_contract, same_contract_iff}

abbrev part : Contract → Holding → ℕ
part c h = if is_held c h then h.quantity else 0

abbrev pub held_total : Contract → List Holding → ℕ
held_total c hs = sum_by (part c) hs

-- The contracts that all resting sales of one contract would still sell are held.
abbrev pub IsCovered : PaperBroker → Type 0
IsCovered p = (c : Contract) → reserved_quantity c p.orders ≤ held_total c p.positions

-- What the tasks of the relay ask of the broker; an order that is refused changes nothing.
pub data PaperOp : Type 0 where
  submits : PaperRequest → PaperOp
  cancels : ℕ → Option ℕ → Option Expected → PaperOp

abbrev broker_after : PaperBroker → Except PaperError (PaperOrder × PaperBroker) → PaperBroker
broker_after p (ok (o, p')) = p'
broker_after p (raise e) = p

unfoldable pub paper_step : PaperOp → PaperBroker → PaperBroker
paper_step (submits r) p = broker_after p (submit r p)
paper_step (cancels k b e) p = broker_after p (cancel_order k b e p)

unfoldable pub paper_run : List PaperOp → PaperBroker → PaperBroker
paper_run [] p = p
paper_run (op ∷ ops) p = paper_run ops (paper_step op p)

held_total-add_holding :
    (c : Contract) (h : Holding) (hs : List Holding)
    → held_total c (add_holding h hs) ≡ held_total c hs + part c h
unfolding add_holding
held_total-add_holding c h [] = omega arith
held_total-add_holding c h (x ∷ xs) = elim (Bool-cases (same_contract x.contract h.contract)) [
  | inl e ↦
      let same_key : x.contract ≡ h.contract = (same_contract_iff x.contract h.contract).0 e in
      rw e (ground (arith, same_key))
  | inr e ↦ rw e (omega (arith, held_total-add_holding c h xs))
]

held_total-merge :
    (c : Contract) (ps hs : List Holding)
    → held_total c (merge ps hs) ≡ held_total c ps + held_total c hs
unfolding merge
held_total-merge c [] hs = omega arith
held_total-merge c (p ∷ ps) hs = elim (Bool-cases (p.quantity == 0)) [
  | inl e ↦ rw e (ground (arith, held_total-merge c ps hs))
  | inr e ↦
      rw e (omega (arith, held_total-merge c ps (add_holding p hs), held_total-add_holding c p hs))
]

held_total-append :
    (c : Contract) (ps qs : List Holding)
    → held_total c (ps ++ qs) ≡ held_total c ps + held_total c qs
held_total-append c [] qs = omega arith
held_total-append c (p ∷ ps) qs = omega (arith, held_total-append c ps qs)

held_total-sell_from :
    (c d : Contract) (n : ℕ) (hs : List Holding) {h : Holding}
    → find (is_held c) hs ≡ some h
    → n ≤ h.quantity
    → held_total d (sell_from c n hs) + (if same_contract c d then n else 0) ≡ held_total d hs
unfolding sell_from
held_total-sell_from c d n [] e le = cc
held_total-sell_from c d n (x ∷ xs) {h} e le = elim (Bool-cases (is_held c x)) [
  | inl q ↦
      let same_key : x.contract ≡ c = (same_contract_iff x.contract c).0 q in
      let is_first : x ≡ h = ground arith in rw q (ground (arith, same_key))
  | inr q ↦ rw q (omega (arith, held_total-sell_from c d n xs {h = h} (rw q at e) le))
]

-- What the first holding has is part of the total.
held_total-find :
    (c : Contract) (hs : List Holding) {h : Holding}
    → find (is_held c) hs ≡ some h
    → h.quantity ≤ held_total c hs
held_total-find c [] e = cc
held_total-find c (x ∷ xs) {h} e = ground (arith, held_total-find c xs {h = h})

-- What a sale that passes leaves room for.
check_holdings-room :
    (b : PaperBody) (p : PaperBroker) {u : Unit {0}}
    → check_holdings b p ≡ ok u
    → is_buy b.side ≡ false
    → (h : Holding) × (find (is_held b.contract) p.positions ≡ some h)
      × (b.quantity + reserved_quantity b.contract p.orders ≤ h.quantity)
unfolding check_holdings
check_holdings-room b p e sells = elim (Option-cases (find (is_held b.contract) p.positions)) [
  | inl nothing ↦ absurd (ground arith)
  | inr (h, found) ↦ (h, found, ground arith)
]

-- A new resting order.
rests-IsCovered :
    (k : ℕ) (b : PaperBody) (p : PaperBroker) {u : Unit {0}}
    → check_holdings b p ≡ ok u
    → IsCovered p
    → IsCovered (with_order (kept k b resting_order 0 none) p)
unfolding reserved_by
rests-IsCovered k b p e covered d = elim (Bool-cases (is_buy b.side)) [
  | inl buys ↦ let known = covered d in ground arith
  | inr sells ↦
      let (h, found, room) = check_holdings-room b p e sells in
      elim (Bool-cases (same_contract b.contract d)) [
        | inl q ↦
            let same_key : b.contract ≡ d = (same_contract_iff b.contract d).0 q in
            let known : reserved_quantity d p.orders + b.quantity ≤ held_total d p.positions =
              rw (← same_key) (omega (arith, room, held_total-find b.contract p.positions found)) in
            ground arith
        | inr other ↦ let known = covered d in ground arith
      ]
]

fill_buy-IsCovered :
    (k : ℕ) (b : PaperBody) (price : Decimal) (p p' : PaperBroker)
    → fill_buy b price p ≡ ok p'
    → IsCovered p
    → IsCovered (with_order (kept k b filled_order b.quantity (some price)) p')
unfolding fill_buy restore_positions reserved_by
fill_buy-IsCovered k b price p p' e covered d =
    let new_row : Holding = record {
      contract = b.contract;
      quantity = b.quantity;
      average_price = price;
    } in
    let merged = held_total-merge d (p.positions ++ new_row ∷ []) [] in
    let appended = held_total-append d p.positions (new_row ∷ []) in
    let known = covered d in ground arith

fill_sale-IsCovered :
    (k : ℕ) (b : PaperBody) (price : Decimal) (p : PaperBroker) {u : Unit {0}}
    → check_holdings b p ≡ ok u
    → is_buy b.side ≡ false
    → IsCovered p
    → IsCovered (with_order (kept k b filled_order b.quantity (some price)) (fill_sale b price p))
unfolding fill_sale reserved_by
fill_sale-IsCovered k b price p e sells covered d =
    let (h, found, room) = check_holdings-room b p e sells in
    let sold = held_total-sell_from b.contract d b.quantity p.positions found (omega arith) in
    let first = held_total-find b.contract p.positions found in
    elim (Bool-cases (same_contract b.contract d)) [
      | inl q ↦
          let same_key : b.contract ≡ d = (same_contract_iff b.contract d).0 q in
          let known : reserved_quantity d p.orders + b.quantity ≤ held_total d p.positions =
            rw (← same_key) (omega (arith, room, first)) in
          ground arith
      | inr other ↦ let known = covered d in ground arith
    ]

fill-IsCovered :
    (k : ℕ) (b : PaperBody) (price : Decimal) (p p' : PaperBroker) {u : Unit {0}}
    → check_holdings b p ≡ ok u
    → fill b price p ≡ ok p'
    → IsCovered p
    → IsCovered (with_order (kept k b filled_order b.quantity (some price)) p')
unfolding fill
fill-IsCovered k b price p p' c e covered = elim (Bool-cases (is_buy b.side)) [
  | inl buys ↦ fill_buy-IsCovered k b price p p' (rw buys at e) covered
  | inr sells ↦
      let sold : fill_sale b price p ≡ p' = ground arith in
      subst (λ x. IsCovered (with_order (kept k b filled_order b.quantity (some price)) x)) sold
        (fill_sale-IsCovered k b price p c sells covered)
]

place-IsCovered :
    (k : ℕ) (b : PaperBody) (p : PaperBroker) (o : PaperOrder) (p' : PaperBroker)
    → place k b p ≡ ok (o, p')
    → IsCovered p
    → IsCovered p'
unfolding place
place-IsCovered k b p o p' e covered = bind_ok (check_holdings b p) _ e λ _ e1 h1.
    bind_ok (quote p.fixtures b.contract) _ h1 λ q e2 h2.
      bind_ok (raise_if (not p.market_open || not q.tradable) closed_or_untradable) _ h2 λ _ e3 h3.
        let price : Decimal = if is_buy b.side then q.ask else q.bid in
        let test = same_type b.order_type stop_order || not (crosses b price) in
        elim (Bool-cases test) [
          | inl rests ↦
              let same_broker : with_order (kept k b resting_order 0 none) p ≡ p' = ground arith in
              subst IsCovered same_broker (rests-IsCovered k b p e1 covered)
          | inr crossing ↦ bind_ok (fill b price p) _ (rw crossing at h3) λ t e4 h4.
              let same_broker : with_order (kept k b filled_order b.quantity (some price)) t ≡ p' =
                ground arith in
              subst IsCovered same_broker (fill-IsCovered k b price p t e1 e4 covered)
        ]

submit-IsCovered :
    (r : PaperRequest) (p : PaperBroker) (o : PaperOrder) (p' : PaperBroker)
    → submit r p ≡ ok (o, p')
    → IsCovered p
    → IsCovered p'
unfolding submit
submit-IsCovered r p o p' e covered = bind_ok (body_of r) _ e λ (k, b) e1 h1.
    elim (Option-cases (find (is_order k) p.orders)) [
      | inl unseen ↦ place-IsCovered k b p o p' (ground arith) covered
      | inr (x, seen) ↦
          let same_broker : p ≡ p' = ground arith in subst IsCovered same_broker covered
    ]

canceled-le :
    (k : ℕ) (c : Contract) (os : List PaperOrder)
    → reserved_quantity c (update (is_order k) (λ x. record x { status = canceled_order }) os)
      ≤ reserved_quantity c os
unfolding reserved_by
canceled-le k c [] = omega arith
canceled-le k c (o ∷ os) = ground (arith, canceled-le k c os)

cancel_order-IsCovered :
    (k : ℕ) (broker_id : Option ℕ) (expected : Option Expected) (p : PaperBroker) (o : PaperOrder)
    (p' : PaperBroker)
    → cancel_order k broker_id expected p ≡ ok (o, p')
    → IsCovered p
    → IsCovered p'
unfolding cancel_order
cancel_order-IsCovered k broker_id expected p o p' e covered d =
    bind_ok (raise_if (elim broker_id [ none ↦ false | some b ↦ not (b == k) ]) no_such_order) _ e
      λ _ e1 h1.
        bind_ok (order_status k expected p) _ h1
          λ x e2 h2. let less = canceled-le k d p.orders in let known = covered d in ground arith

paper_step-IsCovered : (op : PaperOp) (p : PaperBroker) → IsCovered p → IsCovered (paper_step op p)
unfolding paper_step
paper_step-IsCovered (submits r) p covered = elim (Except-cases (submit r p)) [
  | inl ((o, p'), taken) ↦ rw taken (submit-IsCovered r p o p' taken covered)
  | inr (e, refused) ↦ rw refused covered
]
paper_step-IsCovered (cancels k b e) p covered = elim (Except-cases (cancel_order k b e p)) [
  | inl ((o, p'), taken) ↦ rw taken (cancel_order-IsCovered k b e p o p' taken covered)
  | inr (e, refused) ↦ rw refused covered
]

-- From a broker whose resting sales are covered, such as one that has no orders, every sequence of
-- submissions and cancellations, refused ones included, keeps them covered: in each contract, what
-- all resting sales would still sell is held.
pub paper_run-IsCovered :
    (ops : List PaperOp) (p : PaperBroker) → IsCovered p → IsCovered (paper_run ops p)
unfolding paper_run
paper_run-IsCovered [] p covered = covered
paper_run-IsCovered (op ∷ ops) p covered =
    paper_run-IsCovered ops (paper_step op p) (paper_step-IsCovered op p covered)
