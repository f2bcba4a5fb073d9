-- ===== src/Sse/Listener/Fanout.antt =====
-- What the listener accepts, and what the fan-out sends.
use dreamscroll.Base.{
  ℕ, ◌≡◌, refl, sym, ap, ◌∙◌, true, false, ◌||◌, Option, none, some, List, [], ◌∷◌, ◌++◌, inl, inr,
  ◌↔◌, ==→eq, if◌then◌else◌, guard_inv, Option-cases,
}
use dreamscroll.Base.Words.{I32, lt_i32}
use dreamscroll.Base.Text.{Text}
use dreamscroll.Base.Results.{Result, ok, err}
use dreamscroll.Sse.Event.{TaskStatusUpdate, ServerEventKind, task_status, current_schema_version}
use dreamscroll.Sse.Listener.{
  Json, has_owner, is_current, owned, decode_task_status_update, of_kind, typed, versioned,
  decode_server_event, recv, FanoutTurn, shutdown_changed, notified, on_recv, fanout_step,
  spawn_local_fanout,
}

is_current-true : (o : Option ℕ) → is_current o ≡ true → o ≡ some current_schema_version
unfolding is_current
is_current-true none h = cc
is_current-true (some version) h = ap some (==→eq version current_schema_version h)

has_owner-true :
    (o : Option I32)
    → has_owner o ≡ true
    → (owner : I32) × (o ≡ some owner) × (lt_i32 0 owner ≡ true)
unfolding has_owner
has_owner-true none h = cc
has_owner-true (some owner) h = (owner, refl, h)

owned-inv :
    (r : Result Text TaskStatusUpdate) (e : TaskStatusUpdate)
    → owned r ≡ some e
    → (r ≡ ok e) × (owner : I32) × (e.entity_owner_id ≡ some owner) × (lt_i32 0 owner ≡ true)
unfolding owned
owned-inv (err x) e h = cc
owned-inv (ok d) e h =
    let (own, same) = guard_inv (has_owner d.entity_owner_id) (some d) e h in
    let d_is_e : d ≡ e = cc in
    let (owner, owns, positive) =
      has_owner-true e.entity_owner_id (ap (λ x. has_owner x.entity_owner_id) (sym d_is_e) ∙ own) in
    (ap ok d_is_e, owner, owns, positive)

module _ {V : Type 0} (json : Json V) where
  -- What is known of an event that a payload was decoded to.
  abbrev pub IsAccepted : Text → TaskStatusUpdate → Type 0
  IsAccepted payload e =
      (value : V) × (json.from_str payload ≡ ok value)
      × (json.schema_version value ≡ some current_schema_version)
      × ((kind_value : V) × (json.event_type value ≡ some kind_value)
          × (json.kind_from_value kind_value ≡ ok task_status))
      × (json.update_from_value value ≡ ok e)
      × (owner : I32) × (e.entity_owner_id ≡ some owner)
      × (lt_i32 0 owner ≡ true)

  versioned-inv :
      (r : Result Text V) (e : TaskStatusUpdate)
      → versioned json r ≡ some e
      → (value : V) × (r ≡ ok value)
        × (json.schema_version value ≡ some current_schema_version)
        × (typed json value (json.event_type value) ≡ some e)
  unfolding versioned
  versioned-inv (err x) e h = cc
  versioned-inv (ok value) e h =
      let (now, rest) =
        guard_inv (is_current (json.schema_version value))
          (typed json value (json.event_type value)) e h in
      (value, refl, is_current-true (json.schema_version value) now, rest)

  typed-inv :
      (value : V) (o : Option V) (e : TaskStatusUpdate)
      → typed json value o ≡ some e
      → (kind_value : V) × (o ≡ some kind_value)
        × (of_kind json value (json.kind_from_value kind_value) ≡ some e)
  unfolding typed
  typed-inv value none e h = cc
  typed-inv value (some kind_value) e h = (kind_value, refl, h)

  of_kind-inv :
      (value : V) (r : Result Text ServerEventKind) (e : TaskStatusUpdate)
      → of_kind json value r ≡ some e
      → (r ≡ ok task_status) × (decode_task_status_update json value ≡ some e)
  unfolding of_kind
  of_kind-inv value (err x) e h = cc
  of_kind-inv value (ok task_status) e h = (refl, h)

  -- A payload is decoded to an event exactly if it is JSON of the current schema version and of a
  -- known kind whose body is that event, and the event has an owner above 0.
  pub decode_server_event_exact :
      (payload : Text) (e : TaskStatusUpdate)
      → (decode_server_event json payload ≡ some e) ↔ IsAccepted payload e
  unfolding decode_server_event decode_task_status_update versioned typed of_kind owned is_current
      has_owner
  decode_server_event_exact payload e = (accepted, decoded)
    where
      accepted : decode_server_event json payload ≡ some e → IsAccepted payload e
      accepted h =
          let (value, parsed, version, has_kind) = versioned-inv (json.from_str payload) e h in
          let (kind_value, kind, kinded) = typed-inv value (json.event_type value) e has_kind in
          let (known, body) = of_kind-inv value (json.kind_from_value kind_value) e kinded in
          let (body_is, owner, own, positive) = owned-inv (json.update_from_value value) e body in
          (value, parsed, version, (kind_value, kind, known), body_is, owner, own, positive)

      decoded : IsAccepted payload e → decode_server_event json payload ≡ some e
      decoded (value, parsed, version, (kind_value, kind, known), body, owner, own, positive) =
          rw (parsed, version, kind, known, body, own, positive) refl

-- The payloads that the loop takes before it breaks, and the events in them.
unfoldable pub taken_payloads : List FanoutTurn → List Text
taken_payloads [] = []
taken_payloads (shutdown_changed gone value ∷ ts) =
    let rest = taken_payloads ts in if gone || value then [] else rest
taken_payloads (notified (ok payload) ∷ ts) = payload ∷ taken_payloads ts
taken_payloads (notified (err error) ∷ ts) = []

events_in : Option TaskStatusUpdate → List TaskStatusUpdate
events_in none = []
events_in (some e) = e ∷ []

module _ {V : Type 0} (json : Json V) where
  unfoldable pub decoded_events : List Text → List TaskStatusUpdate
  unfolding events_in
  decoded_events [] = []
  decoded_events (payload ∷ payloads) =
      events_in (decode_server_event json payload) ++ decoded_events payloads

  -- The fan-out sends, in order, the events of all payloads that come before a shutdown or a failure
  -- of the connection: a payload that is not decoded stops nothing.
  pub spawn_local_fanout-decoded :
      (turns : List FanoutTurn)
      → spawn_local_fanout json turns ≡ decoded_events (taken_payloads turns)
  unfolding spawn_local_fanout decoded_events taken_payloads fanout_step recv on_recv events_in
  spawn_local_fanout-decoded [] = refl
  spawn_local_fanout-decoded (shutdown_changed true value ∷ ts) = refl
  spawn_local_fanout-decoded (shutdown_changed false true ∷ ts) = refl
  spawn_local_fanout-decoded (shutdown_changed false false ∷ ts) = spawn_local_fanout-decoded ts
  spawn_local_fanout-decoded (notified (err error) ∷ ts) = refl
  spawn_local_fanout-decoded (notified (ok payload) ∷ ts) =
      let later = spawn_local_fanout-decoded ts in
      elim (Option-cases (decode_server_event json payload)) [
        | inl skipped ↦ rw skipped later
        | inr (e, sent) ↦ rw sent (ap (λ es. e ∷ es) later)
      ]
