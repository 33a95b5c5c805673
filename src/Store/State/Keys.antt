-- ===== src/Store/State/Keys.antt =====
-- The orders table by its primary key.
use discord_option_tailer.Base.{
  ==_iff, List, Option, [], arith, find, find_holds, if◌then◌else◌, none, some, update, ℕ, ◌==◌,
  ◌∷◌, ◌≡◌,
}
use discord_option_tailer.Store.Rows.{Order}
use discord_option_tailer.Store.State.{Store, find_order, has_id, update_order}

abbrev pub apply_to : (Order → Order) → Option Order → Option Order
apply_to f none = none
apply_to f (some o) = some (f o)

pub find-update_keyed :
    (j k : ℕ) (f : Order → Order) (os : List Order)
    → ((o : Order) → (f o).id ≡ o.id)
    → find (has_id j) (update (has_id k) f os)
      ≡ (if j == k then apply_to f (find (has_id j) os) else find (has_id j) os)
find-update_keyed j k f [] same = ground arith
find-update_keyed j k f (o ∷ os) same = ground (arith, same o, find-update_keyed j k f os same)

-- An update of the row `k` that keeps its ID is seen at `k` and at no other ID.
pub find_order-update_order :
    (j k : ℕ) (f : Order → Order) (s : Store)
    → ((o : Order) → (f o).id ≡ o.id)
    → find_order j (update_order k f s)
      ≡ (if j == k then apply_to f (find_order j s) else find_order j s)
find_order-update_order j k f s same = find-update_keyed j k f s.orders same

pub find_order-id : (k : ℕ) (s : Store) {o : Order} → find_order k s ≡ some o → o.id ≡ k
find_order-id k s {o} h = (==_iff o.id k).0 (find_holds (has_id k) s.orders h)
