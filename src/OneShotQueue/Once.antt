-- ===== src/OneShotQueue/Once.antt =====
-- Every interleaving of calls on one queue: src/common/oneshotqueue.rs.
use dreamscroll.Base.{
  ℕ, ◌+◌, ◌≡◌, ◌≢◌, refl, sym, ap, ◌∙◌, ◌⊎◌, inl, inr, Bool, true, false, Option, none, some, List,
  [], ◌∷◌, ◌++◌, arith, All, All-append, All-map, Distinct, Distinct-snoc, Distinct-before,
  Distinct-right, Distinct-left, Option-cases, length, length-append, append_assoc,
}
use mathlib.Core.Logic.{if_pos, if_neg}
use mathlib.Core.Path.{subst}
use dreamscroll.OneShotQueue.{
  QueueStatus, reserved, completed, OneShotQueueInner, new, Popped, nothing, item, panicked,
  set_status, enqueue, enqueue_iter, enqueue_from, pop_next, reserve, complete, settle,
}

-- A call, made by any thread.
pub data Call (A : Type 0) : Type 0 where
  enqueues completes : A → Call A
  enqueues_all : List A → Call A
  pops : Call A

-- The queue with what its callers have seen: the items that `enqueue` accepted and those that
-- `pop_next` handed out, oldest first, and whether a call panicked.
pub record History (A : Type 0) : Type 0 where
  pub queue : OneShotQueueInner A
  pub accepted : List A
  pub handed : List A
  pub crashed : Bool

abbrev pub start : {A : Type 0} → History A
start = record { queue = new; accepted = []; handed = []; crashed = false }

-- A hand-out: what `pop_next` returned joins the list.
receive : {A : Type 0} → History A → OneShotQueueInner A × Popped A → History A
receive h (q, nothing) = record h { queue = q }
receive h (q, item a) = record h { queue = q; handed = h.handed ++ a ∷ [] }
receive h (q, panicked) = record h { queue = q; crashed = true }

offered : {A : Type 0} → History A → A → OneShotQueueInner A × Bool → History A
offered h a (q, true) = record h { queue = q; accepted = h.accepted ++ a ∷ [] }
offered h a (q, false) = record h { queue = q }

abbrev IsTaken : Option QueueStatus → Type 0
IsTaken s = (s ≡ some reserved) ⊎ (s ≡ some completed)

pub record IsOnce {A : Type 0} (h : History A) : Type 0 where
  pub split : h.accepted ≡ h.handed ++ h.queue.pending
  pub distinct : Distinct h.accepted
  pub waiting : All (λ a. h.queue.status_map a ≡ some QueueStatus.pending) h.queue.pending
  pub taken : All (λ a. IsTaken (h.queue.status_map a)) h.handed
  pub safe : h.crashed ≡ false

module _ {A : Type 0} (eq? : Discrete A) where
  pub offer : History A → A → History A
  unfolding offered
  offer h a = offered h a (enqueue eq? h.queue a)

  pub offer_all : History A → List A → History A
  offer_all h [] = h
  offer_all h (a ∷ items) = offer_all (offer h a) items

  unfoldable pub step : History A → Call A → History A
  unfolding offer receive offer_all
  step h (enqueues a) = offer h a
  step h (enqueues_all items) = record (offer_all h items) {
    queue = (enqueue_iter eq? h.queue items).0;
  }
  step h pops = receive h (pop_next eq? h.queue)
  step h (completes a) = record h { queue = (complete eq? h.queue a).0 }

  unfoldable pub run : History A → List (Call A) → History A
  unfolding step
  run h [] = h
  run h (c ∷ cs) = run (step h c) cs

  set_status_self :
      (m : A → Option QueueStatus) (a : A) (s : QueueStatus) → set_status eq? m a s a ≡ some s
  unfolding set_status
  set_status_self m a s = rw (if_pos _ refl)

  set_status_ne :
      (m : A → Option QueueStatus) (a b : A) (s : QueueStatus)
      → b ≢ a
      → set_status eq? m a s b ≡ m b
  unfolding set_status
  set_status_ne m a b s h = rw (if_neg _ (λ e. h (sym e)))

  -- A write to the status of `a` leaves what holds of the other items.
  All-set_status :
      (P : Option QueueStatus → Type 0) (m : A → Option QueueStatus) (a : A) (s : QueueStatus)
      (xs : List A)
      → All (λ b. b ≢ a) xs
      → All (λ b. P (m b)) xs
      → All (λ b. P (set_status eq? m a s b)) xs
  All-set_status P m a s [] f h = tt
  All-set_status P m a s (b ∷ xs) f h =
      (rw (set_status_ne m a b s f.0) h.0, All-set_status P m a s xs f.1 h.1)

  -- An item whose status no member of the list has is not in the list.
  absent :
      (P : Option QueueStatus → Type 0) (m : A → Option QueueStatus) (a : A) (xs : List A)
      → ¬ P (m a)
      → All (λ b. P (m b)) xs
      → All (λ b. b ≢ a) xs
  absent P m a [] f h = tt
  absent P m a (b ∷ xs) f h = ((λ e. f (subst (λ c. P (m c)) e h.0)), absent P m a xs f h.1)

  accept-IsOnce :
      (h : History A) (a : A)
      → IsOnce h
      → h.queue.status_map a ≡ none
      → IsOnce (record h {
        queue = record {
          pending = h.queue.pending ++ a ∷ [];
          status_map = set_status eq? h.queue.status_map a QueueStatus.pending;
        };
        accepted = h.accepted ++ a ∷ [];
      })
  accept-IsOnce h a v vacant = record {
    split = ap (λ xs. xs ++ a ∷ []) v.split ∙ append_assoc h.handed h.queue.pending (a ∷ []);
    distinct = Distinct-snoc h.accepted a v.distinct new_item;
    waiting =
        All-append _ h.queue.pending (a ∷ [])
          (All-set_status (λ s. s ≡ some QueueStatus.pending) m a QueueStatus.pending _ free
            v.waiting)
          (set_status_self m a QueueStatus.pending, tt);
    taken = All-set_status IsTaken m a QueueStatus.pending h.handed gone v.taken;
    safe = v.safe;
  }
    where
      m : A → Option QueueStatus
      m = h.queue.status_map

      free : All (λ b. b ≢ a) h.queue.pending
      free = absent (λ s. s ≡ some QueueStatus.pending) m a _ (λ e. cc) v.waiting

      gone : All (λ b. b ≢ a) h.handed
      gone = absent IsTaken m a h.handed (λ t. ground arith) v.taken

      new_item : All (λ b. b ≢ a) h.accepted
      new_item = subst (All (λ b. b ≢ a)) (sym v.split) (All-append _ h.handed _ gone free)

  offer-IsOnce : (h : History A) (a : A) → IsOnce h → IsOnce (offer h a)
  unfolding offer offered enqueue
  offer-IsOnce h a v = elim (Option-cases (h.queue.status_map a)) [
    | inl e ↦ rw (e, enqueue) (accept-IsOnce h a v e)
    | inr (s, e) ↦ rw (e, enqueue) v
  ]

  offer_all-IsOnce : (h : History A) (items : List A) → IsOnce h → IsOnce (offer_all h items)
  unfolding offer_all
  offer_all-IsOnce h [] v = v
  offer_all-IsOnce h (a ∷ items) v = offer_all-IsOnce (offer h a) items (offer-IsOnce h a v)

  take_first-IsOnce :
      (h : History A) (a : A) (rest : List A)
      → IsOnce h
      → h.queue.pending ≡ a ∷ rest
      → IsOnce
          (receive h (reserve eq? (record h.queue { pending = rest }) a (h.queue.status_map a)))
  unfolding receive reserve
  take_first-IsOnce h a rest v e =
      rw (is_pending, reserve)
        (record {
          split = v.split ∙ ap (λ xs. h.handed ++ xs) e ∙ sym (append_assoc h.handed (a ∷ []) rest);
          distinct = v.distinct;
          waiting =
              All-set_status (λ s. s ≡ some QueueStatus.pending) m a reserved rest behind waits.1;
          taken =
              All-append _ h.handed (a ∷ [])
                (All-set_status IsTaken m a reserved h.handed before v.taken)
                (inl (set_status_self m a reserved), tt);
          safe = v.safe;
        })
    where
      m : A → Option QueueStatus
      m = h.queue.status_map

      waits : All (λ b. m b ≡ some QueueStatus.pending) (a ∷ rest)
      waits = subst (All (λ b. m b ≡ some QueueStatus.pending)) e v.waiting

      is_pending : h.queue.status_map a ≡ some QueueStatus.pending
      is_pending = waits.0

      once : Distinct (h.handed ++ a ∷ rest)
      once = subst Distinct (v.split ∙ ap (λ xs. h.handed ++ xs) e) v.distinct

      before : All (λ b. b ≢ a) h.handed
      before = Distinct-before h.handed a rest once

      behind : All (λ b. b ≢ a) rest
      behind =
          All-map (λ b. a ≢ b) (λ b. b ≢ a) rest (λ b n e'. n (sym e'))
            (Distinct-right h.handed (a ∷ rest) once).0

  pop-IsOnce :
      (h : History A) (ps : List A)
      → IsOnce h
      → h.queue.pending ≡ ps
      → IsOnce (receive h (pop_next eq? h.queue))
  unfolding receive pop_next
  pop-IsOnce h [] v e = rw (e, pop_next) v
  pop-IsOnce h (a ∷ rest) v e = rw (e, pop_next) (take_first-IsOnce h a rest v e)

  completes-IsOnce :
      (h : History A) (a : A) → IsOnce h → IsOnce (record h { queue = (complete eq? h.queue a).0 })
  unfolding complete settle
  completes-IsOnce h a v = by_status (h.queue.status_map a) refl
    where
      m : A → Option QueueStatus
      m = h.queue.status_map

      still_taken : (b : A) → IsTaken (m b) → IsTaken (set_status eq? m a completed b)
      still_taken b t = elim (eq? b a) [
        | yes e ↦ inr (
            subst (λ c. set_status eq? m a completed c ≡ some completed) (sym e)
              (set_status_self m a completed))
        | no n ↦ rw (set_status_ne m a b completed n) t
      ]

      by_status :
          (s : Option QueueStatus)
          → h.queue.status_map a ≡ s
          → IsOnce (record h { queue = (settle eq? h.queue a s).0 })
      by_status none e = v
      by_status (some QueueStatus.pending) e = v
      by_status (some completed) e = v
      by_status (some reserved) e = record {
        split = v.split;
        distinct = v.distinct;
        waiting =
            All-set_status (λ s. s ≡ some QueueStatus.pending) m a completed _
              (absent (λ s. s ≡ some QueueStatus.pending) m a _ (λ p. cc) v.waiting) v.waiting;
        taken = All-map (λ b. IsTaken (m b)) _ h.handed still_taken v.taken;
        safe = v.safe;
      }

  -- What `enqueue_iter` returns, as the same items offered one by one.
  enqueue_from-offer_all :
      (h : History A) (count : ℕ) (items : List A)
      → ((enqueue_from eq? h.queue count items).0 ≡ (offer_all h items).queue)
        × ((enqueue_from eq? h.queue count items).1 + length h.accepted
            ≡ count + length (offer_all h items).accepted)
  unfolding enqueue_from offer_all offer offered enqueue
  enqueue_from-offer_all h count [] = (refl, refl)
  enqueue_from-offer_all h count (a ∷ items) = elim (Option-cases (h.queue.status_map a)) [
    | inl e ↦
        rw (e, enqueue_from, offer_all, enqueue)
          (let later =
              enqueue_from-offer_all
                (record h {
                  queue = record {
                    pending = h.queue.pending ++ a ∷ [];
                    status_map = set_status eq? h.queue.status_map a QueueStatus.pending;
                  };
                  accepted = h.accepted ++ a ∷ [];
                })
                (count + 1) items in
            (later.0, omega (arith, later.1, length-append h.accepted (a ∷ []))))
    | inr (s, e) ↦ rw (e, enqueue_from, offer_all, enqueue) (enqueue_from-offer_all h count items)
  ]

  -- `enqueue_iter` does what as many calls of `enqueue` do, and counts those that were accepted.
  pub enqueue_iter-offer_all :
      (h : History A) (items : List A)
      → ((enqueue_iter eq? h.queue items).0 ≡ (offer_all h items).queue)
        × ((enqueue_iter eq? h.queue items).1 + length h.accepted
            ≡ length (offer_all h items).accepted)
  unfolding enqueue_iter
  enqueue_iter-offer_all h items =
      let whole = enqueue_from-offer_all h 0 items in (whole.0, omega (arith, whole.1))

  step-IsOnce : (h : History A) (c : Call A) → IsOnce h → IsOnce (step h c)
  unfolding step
  step-IsOnce h (enqueues a) v = offer-IsOnce h a v
  step-IsOnce h (enqueues_all items) v =
      rw ((enqueue_iter-offer_all h items).0) (offer_all-IsOnce h items v)
  step-IsOnce h pops v = pop-IsOnce h h.queue.pending v refl
  step-IsOnce h (completes a) v = completes-IsOnce h a v

  pub run-IsOnce : (h : History A) (calls : List (Call A)) → IsOnce h → IsOnce (run h calls)
  unfolding run
  run-IsOnce h [] v = v
  run-IsOnce h (c ∷ calls) v = run-IsOnce (step h c) calls (step-IsOnce h c v)

  start-IsOnce : IsOnce {A = A} start
  unfolding new
  start-IsOnce = record { split = refl; distinct = tt; waiting = tt; taken = tt; safe = refl }

  -- Whatever calls the threads make on a new queue and in whatever order: no call panics, the
  -- items handed out are the accepted items in the order of their acceptance, the rest of the
  -- accepted items still wait, no item is accepted twice, and so none is handed out twice.
  pub run_exactly_once :
      (calls : List (Call A))
      → let h = run start calls in
        (h.accepted ≡ h.handed ++ h.queue.pending)
        × Distinct h.accepted
        × Distinct h.handed
        × (h.crashed ≡ false)
  run_exactly_once calls =
      let v = run-IsOnce start calls start-IsOnce in
      (v.split, v.distinct, Distinct-left _ _ (subst Distinct v.split v.distinct), v.safe)

  -- How far an item has come; an unknown item is at 0.
  pub progress : Option QueueStatus → ℕ
  progress none = 0
  progress (some QueueStatus.pending) = 1
  progress (some reserved) = 2
  progress (some completed) = 3
