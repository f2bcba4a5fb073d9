-- ===== src/Task/LocalQueue/Dispatcher.antt =====
-- The order and the number of the workers of the local queue.
use mathlib.Core.List.{append-nil}
use dreamscroll.Base.{
  ℕ, zero, suc, ◌+◌, ◌≤◌, ◌≡◌, refl, sym, ap, ◌∙◌, Bool, true, false, Option, none, some, List, [],
  ◌∷◌, ◌++◌, append_assoc, length, length-append, ltb, if◌then◌else◌, arith,
}
use dreamscroll.Task.LocalQueue.{
  LocalTaskQueue, Event, enqueues, receives, spawns, drops, finishes, connect, sent, enqueue,
  receive_from, receive, spawn_with, spawn, consed, without_nth, released, finish, drop_queue, step,
  run_events,
}

module _ {R : Type 0} where
  holding : Option R → List R
  holding none = []
  holding (some run) = run ∷ []

  -- The runs that wait for a worker, the next one first.
  unfoldable pub waiting : LocalTaskQueue R → List R
  unfolding holding
  waiting q = holding q.held ++ q.channel

  -- Permits and running workers add up to the limit. The accepted runs are, in their order, those
  -- that were started, those that wait, and those that were lost with the dispatcher.
  pub record IsSound (most : ℕ) (q : LocalTaskQueue R) : Type 0 where
    pub limit : q.permits + length q.running ≡ most
    pub lost : List R
    pub order : q.started ++ (waiting q ++ lost) ≡ q.accepted
    pub none_lost : q.dispatching ≡ true → lost ≡ []

  accepted_last :
      (started held channel lost accepted : List R) (run : R)
      → lost ≡ []
      → started ++ ((held ++ channel) ++ lost) ≡ accepted
      → started ++ ((held ++ (channel ++ run ∷ [])) ++ []) ≡ accepted ++ run ∷ []
  accepted_last started held channel lost accepted run none_lost order =
      ap (λ xs. started ++ xs)
        (append-nil (held ++ (channel ++ run ∷ [])) ∙ sym (append_assoc held channel (run ∷ [])))
      ∙ sym (append_assoc started (held ++ channel) (run ∷ []))
      ∙ ap (λ xs. (started ++ xs) ++ run ∷ []) (sym (append-nil (held ++ channel)))
      ∙ ap (λ xs. (started ++ ((held ++ channel) ++ xs)) ++ run ∷ []) (sym none_lost)
      ∙ ap (λ xs. xs ++ run ∷ []) order

  consed-inv :
      (run : R) (o : Option (List R)) (rest : List R)
      → consed run o ≡ some rest
      → (runs : List R) × (o ≡ some runs) × (length rest ≡ suc (length runs))
  unfolding consed
  consed-inv run none rest h = cc
  consed-inv run (some runs) rest h =
      let same : run ∷ runs ≡ rest = cc in (runs, refl, ap length (sym same))

  module _ (most : ℕ) where
    sent-IsSound :
        (dispatching : Bool) (run : R) (q : LocalTaskQueue R)
        → q.dispatching ≡ dispatching
        → IsSound most q
        → IsSound most (sent dispatching run q).1
    unfolding sent waiting
    sent-IsSound true run q lives s = record {
      limit = s.limit;
      lost = [];
      order =
          accepted_last q.started (holding q.held) q.channel s.lost q.accepted run
            (s.none_lost lives) s.order;
      none_lost = λ h. refl;
    }
    sent-IsSound false run q gone s = s

    receive-IsSound :
        (channel : List R) (held : Option R) (q : LocalTaskQueue R)
        → q.channel ≡ channel
        → q.held ≡ held
        → IsSound most q
        → IsSound most (receive_from channel held q)
    unfolding receive_from waiting holding
    receive-IsSound (run ∷ runs) none q c h s = record {
      limit = s.limit;
      lost = s.lost;
      order =
          ap (λ o. q.started ++ ((holding o ++ run ∷ runs) ++ s.lost)) (sym h)
          ∙ ap (λ cs. q.started ++ ((holding q.held ++ cs) ++ s.lost)) (sym c)
          ∙ s.order;
      none_lost = s.none_lost;
    }
    receive-IsSound [] none q c h s = s
    receive-IsSound [] (some run) q c h s = s
    receive-IsSound (run ∷ runs) (some r) q c h s = s

    spawn-IsSound :
        (held : Option R) (permits : ℕ) (q : LocalTaskQueue R)
        → q.held ≡ held
        → q.permits ≡ permits
        → IsSound most q
        → IsSound most (spawn_with held permits q)
    unfolding spawn_with waiting holding
    spawn-IsSound (some run) (suc permits) q h p s = record {
      limit = omega (arith, length-append q.running (run ∷ []), s.limit, p);
      lost = s.lost;
      order =
          append_assoc q.started (run ∷ []) (q.channel ++ s.lost)
          ∙ ap (λ o. q.started ++ ((holding o ++ q.channel) ++ s.lost)) (sym h)
          ∙ s.order;
      none_lost = s.none_lost;
    }
    spawn-IsSound (some run) zero q h p s = s
    spawn-IsSound none permits q h p s = s

    length-without_nth :
        (place : ℕ) (runs rest : List R)
        → without_nth place runs ≡ some rest
        → length runs ≡ suc (length rest)
    unfolding without_nth consed
    length-without_nth place [] rest h = cc
    length-without_nth zero (run ∷ runs) rest h =
        let same : runs ≡ rest = cc in ap (λ xs. suc (length xs)) same
    length-without_nth (suc place) (run ∷ runs) rest h =
        let (rs, found, longer) = consed-inv run (without_nth place runs) rest h in
        ap suc (length-without_nth place runs rs found ∙ sym longer)

    drop_queue-IsSound : (q : LocalTaskQueue R) → IsSound most q → IsSound most (drop_queue q)
    unfolding drop_queue waiting holding
    drop_queue-IsSound q s = record {
      limit = s.limit;
      lost = waiting q ++ s.lost;
      order = s.order;
      none_lost = λ h. cc;
    }

    released-IsSound :
        (o : Option (List R)) (q : LocalTaskQueue R)
        → ((rest : List R) → o ≡ some rest → length q.running ≡ suc (length rest))
        → IsSound most q
        → IsSound most (released o q)
    unfolding released waiting
    released-IsSound none q h s = s
    released-IsSound (some rest) q h s = record {
      limit = omega (arith, h rest refl, s.limit);
      lost = s.lost;
      order = s.order;
      none_lost = s.none_lost;
    }

    step-IsSound : (e : Event R) (q : LocalTaskQueue R) → IsSound most q → IsSound most (step e q)
    unfolding step enqueue receive spawn finish
    step-IsSound (enqueues run) q s = sent-IsSound q.dispatching run q refl s
    step-IsSound receives q s = receive-IsSound q.channel q.held q refl refl s
    step-IsSound spawns q s = spawn-IsSound q.held q.permits q refl refl s
    step-IsSound (finishes place) q s =
        released-IsSound (without_nth place q.running) q (length-without_nth place q.running) s
    step-IsSound drops q s = drop_queue-IsSound q s

    run_events-IsSound :
        (es : List (Event R)) (q : LocalTaskQueue R)
        → IsSound most q
        → IsSound most (run_events es q)
    unfolding run_events
    run_events-IsSound [] q s = s
    run_events-IsSound (e ∷ es) q s = run_events-IsSound es (step e q) (step-IsSound e q s)

  -- What a limit on the running workers and the order of starts amount to.
  abbrev pub IsFair : ℕ → LocalTaskQueue R → Type 0
  IsFair most q =
      (length q.running ≤ most)
      × ((rest : List R) × (q.started ++ rest ≡ q.accepted))
      × (q.dispatching ≡ true → q.started ++ waiting q ≡ q.accepted)

  IsFair-IsSound : (most : ℕ) (q : LocalTaskQueue R) → IsSound most q → IsFair most q
  IsFair-IsSound most q s = (
    omega (arith, s.limit),
    (waiting q ++ s.lost, s.order),
    λ lives.
        ap (λ xs. q.started ++ xs) (sym (append-nil (waiting q)))
        ∙ ap (λ xs. q.started ++ (waiting q ++ xs)) (sym (s.none_lost lives))
        ∙ s.order,
  )

  -- Under every sequence of events on a new queue no more workers run than the limit, or one for the
  -- limit 0; the runs are started in the order of their acceptance, each at most once; and while the
  -- dispatcher lives the accepted runs that were not started wait.
  pub run_events-IsFair :
      (most : ℕ) (es : List (Event R))
      → IsFair (if ltb most 1 then 1 else most) (run_events es (connect most))
  unfolding connect waiting holding
  run_events-IsFair most es =
      let limit = if ltb most 1 then 1 else most in
      IsFair-IsSound limit (run_events es (connect most)) (
        run_events-IsSound limit es (connect most)
          (record { limit = omega arith; lost = []; order = refl; none_lost = λ h. refl }))
