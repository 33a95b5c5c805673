-- ===== src/Store/Lifecycle.antt =====
-- The life of the ledger: every write of class Store (relay/core.py) that touches an order, in any
-- order and with any broker answers, restarts included, and the writes that leave orders
-- and positions alone.
pub mod Endings
pub mod Accounts
pub mod Soundness
pub mod Trades
pub mod Key
use discord_option_tailer.Base.{Option, ok, some, ℕ, ◌≡◌}
use discord_option_tailer.Store.Fills.{BrokerResult, apply_result}
use discord_option_tailer.Store.Orders.{
  arm_entry_deadline, mark_unknown, persist_active_order_body, reject_before_submission, reserve,
  restart,
}
use discord_option_tailer.Store.Rows.{Body, Contract, Decision, Order}
use discord_option_tailer.Store.State.{Message, Store, find_order}

-- A body that replaces another in the same order names the same trade. The callers of both body
-- writes (`plan` and `verify_dispatch` of relay/core.py, relay/service.py) add keys to the body that
-- they read or made, and leave these two.
abbrev pub KeepsTrade : ℕ → Body → Store → Type 0
KeepsTrade k body s =
    (o : Order)
    → find_order k s ≡ some o
    → (body.side ≡ o.body.side) × (body.quantity ≡ o.body.quantity)

pub data Step : Store → Store → Type 0 where
  reserved :
      {s t : Store} (m : Message) (d : Decision) (c : Contract) (k : ℕ) (body : Body) (now : ℕ)
      → reserve m d c k body now s ≡ ok t
      → Step s t
  armed :
      {s t : Store} (k : ℕ) (body : Body) (now : ℕ) (deadline : Option ℕ)
      → KeepsTrade k body s
      → arm_entry_deadline k body now s ≡ ok (deadline, t)
      → Step s t
  persisted :
      {s t : Store} (k : ℕ) (body : Body)
      → KeepsTrade k body s
      → persist_active_order_body k body s ≡ ok t
      → Step s t
  rejected_early : {s t : Store} (k : ℕ) → reject_before_submission k s ≡ ok t → Step s t
  marked : (s : Store) (k : ℕ) → Step s (mark_unknown k s)
  applied : (s : Store) (k : ℕ) (r : BrokerResult) → Step s (apply_result k r s).store
  restarted : (s : Store) → Step s (restart s)
  noted : {s t : Store} → t.orders ≡ s.orders → t.positions ≡ s.positions → Step s t

pub data Reach (s : Store) : Store → Type 0 where
  here : Reach s s
  next : {t u : Store} → Reach s t → Step t u → Reach s u
