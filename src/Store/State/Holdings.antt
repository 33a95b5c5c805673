-- ===== src/Store/State/Holdings.antt =====
-- The positions table as a map from source and contract to a quantity.
use discord_option_tailer.Base.{
  Bool-cases, List, [], arith, false, if◌then◌else◌, inl, inr, refl, true, ℕ, ◌↔◌, ◌∷◌, ◌≡◌,
}
use discord_option_tailer.Store.Rows.{Contract, Order, Position, same_contract_iff}
use discord_option_tailer.Store.State.{
  drop_position, held_quantity, order_at, position_at, put_position,
}

pub position_at_iff :
    (g : ℕ) (c : Contract) (p : Position)
    → (position_at g c p ≡ true) ↔ ((p.source_group ≡ g) × (p.contract ≡ c))
unfolding position_at
position_at_iff g c p = ground (arith, same_contract_iff p.contract c)

pub order_at_iff :
    (g : ℕ) (c : Contract) (o : Order)
    → (order_at g c o ≡ true) ↔ ((o.source_group ≡ g) × (o.contract ≡ c))
unfolding order_at
order_at_iff g c o = ground (arith, same_contract_iff o.contract c)

held_quantity-drop_position :
    (g : ℕ) (c : Contract) (p : Position) (ps : List Position)
    → position_at g c p ≡ false
    → held_quantity g c (drop_position p.source_group p.contract ps) ≡ held_quantity g c ps
unfolding held_quantity drop_position
held_quantity-drop_position g c p [] other = refl
held_quantity-drop_position g c p (q ∷ ps) other = ground (
  arith,
  held_quantity-drop_position g c p ps other,
  position_at_iff g c p,
  position_at_iff g c q,
  position_at_iff p.source_group p.contract q,
)

-- Writing a row changes the quantity of its own source and contract, and no other.
pub held_quantity-put_position :
    (g : ℕ) (c : Contract) (p : Position) (ps : List Position)
    → held_quantity g c (put_position p ps)
      ≡ (if position_at g c p then p.quantity else held_quantity g c ps)
unfolding held_quantity put_position
held_quantity-put_position g c p ps = elim (Bool-cases (position_at g c p)) [
  | inl e ↦ ground arith
  | inr e ↦ ground (arith, held_quantity-drop_position g c p ps e)
]
