-- ===== src/OneShotQueue.antt =====
-- src/common/oneshotqueue.rs: a queue that hands each item out once. The mutex makes each method
-- one atomic step, so a method is a function from the guarded state to the next one. The hash map
-- is a function from items to their status.
pub mod Once
use dreamscroll.Base.{
  ℕ, zero, suc, ◌+◌, ◌≡◌, Bool, true, false, Option, none, some, List, [], ◌∷◌, ◌++◌, ite,
}

pub data QueueStatus : Type 0 where
  pending reserved completed : QueueStatus

pub record OneShotQueueInner (A : Type 0) : Type 0 where
  pub pending : List A
  pub status_map : A → Option QueueStatus

unfoldable pub new : {A : Type 0} → OneShotQueueInner A
new = record { pending = []; status_map = λ _. none }

-- What `pop_next` returns, or that it panics.
pub data Popped (A : Type 0) : Type 0 where
  nothing : Popped A
  item : A → Popped A
  panicked : Popped A

module _ {A : Type 0} (eq? : Discrete A) where
  unfoldable pub set_status : (A → Option QueueStatus) → A → QueueStatus → A → Option QueueStatus
  set_status m a s b = ite (eq? a b) (some s) (m b)

  unfoldable pub enqueue : OneShotQueueInner A → A → OneShotQueueInner A × Bool
  unfolding set_status
  enqueue q a = elim (q.status_map a) [
    | none ↦ (
      record {
        pending = q.pending ++ a ∷ [];
        status_map = set_status q.status_map a QueueStatus.pending;
      },
      true,
    )
    | some _ ↦ (q, false)
  ]

  -- The loop of `enqueue_iter`, with its counter.
  unfoldable pub enqueue_from : OneShotQueueInner A → ℕ → List A → OneShotQueueInner A × ℕ
  unfolding set_status
  enqueue_from q count [] = (q, count)
  enqueue_from q count (a ∷ items) =
      let vacant =
        enqueue_from
          (record {
            pending = q.pending ++ a ∷ [];
            status_map = set_status q.status_map a QueueStatus.pending;
          })
          (count + 1) items in
      let occupied = enqueue_from q count items in
      elim (q.status_map a) [ none ↦ vacant | some _ ↦ occupied ]

  unfoldable pub enqueue_iter : OneShotQueueInner A → List A → OneShotQueueInner A × ℕ
  unfolding enqueue_from
  enqueue_iter q items = enqueue_from q 0 items

  -- The status of the item that was just taken off the pending list.
  reserve : OneShotQueueInner A → A → Option QueueStatus → OneShotQueueInner A × Popped A
  unfolding set_status
  reserve q a (some QueueStatus.pending) =
      (record q { status_map = set_status q.status_map a reserved }, item a)
  reserve q a (some reserved) = (q, panicked)
  reserve q a (some completed) = (q, panicked)
  reserve q a none = (q, panicked)

  unfoldable pub pop_next : OneShotQueueInner A → OneShotQueueInner A × Popped A
  unfolding reserve
  pop_next q = elim q.pending [
    | [] ↦ (q, nothing)
    | a ∷ rest ↦ reserve (record q { pending = rest }) a (q.status_map a)
  ]

  settle : OneShotQueueInner A → A → Option QueueStatus → OneShotQueueInner A × Bool
  unfolding set_status
  settle q a (some reserved) = (record q { status_map = set_status q.status_map a completed }, true)
  settle q a (some QueueStatus.pending) = (q, false)
  settle q a (some completed) = (q, false)
  settle q a none = (q, false)

  unfoldable pub complete : OneShotQueueInner A → A → OneShotQueueInner A × Bool
  unfolding settle
  complete q a = settle q a (q.status_map a)
