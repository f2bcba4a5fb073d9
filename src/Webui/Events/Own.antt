-- ===== src/Webui/Events/Own.antt =====
-- What the route of the event stream accepts, and what it sends.
use dreamscroll.Base.{
  ◌≤◌, ◌≡◌, ◌≢◌, refl, Bool, true, false, Option, none, some, List, [], ◌∷◌, ◌++◌, length, inl, inr,
  ltb, ◌==◌, Bool-cases, All, All-append, All-map, Distinct, Distinct-snoc, arith,
}
use dreamscroll.Base.Words.{I32, lt_i32}
use dreamscroll.Base.Text.{Text, codes, split}
use dreamscroll.Base.Results.{Result, ok, err, and_then}
use dreamscroll.Base.Decimal.{parse_i32}
use dreamscroll.Error.{ApiError, bad_request, new}
use dreamscroll.Sse.Event.{TaskStatusUpdate}
use dreamscroll.Sse.Http.{HttpStreamItem, Turn, catchup_updates}
use dreamscroll.Sse.Http.Delivery.{IsFor, IsOwned, make_sse_stream-IsFor}
use dreamscroll.Task.Database.{World}
use dreamscroll.Task.Catchup.{events}
use dreamscroll.Task.Catchup.Scope.{IsScoped}
use dreamscroll.Task.Catchup.Replay.{events-IsScoped}
use dreamscroll.Webui.Events.{
  heartbeat_interval, contains, with_id, within_limit, add_id, add_parsed, add_values,
  parse_capture_ids, catchup_or_skip, catchup_of, streamed, opened, get,
}

abbrev IsPositive : I32 → Type 0
IsPositive id = lt_i32 0 id ≡ true

-- Ids that a catch-up may ask for.
abbrev pub AreIds : List I32 → Type 0
AreIds ids = Distinct ids × All IsPositive ids × (length ids ≤ 200)

-- Such ids, or a request that is refused.
abbrev pub IsParsed : Result ApiError (List I32) → Type 0
IsParsed (ok ids) = AreIds ids
IsParsed (err e) = e.http_status_code ≡ 400

contains-false : (ids : List I32) (id : I32) → contains ids id ≡ false → All (λ j. j ≢ id) ids
unfolding contains
contains-false [] id h = tt
contains-false (j ∷ ids) id h = elim (Bool-cases (j == id)) [
  | inl same ↦ absurd (ground (arith, same, h))
  | inr other ↦ (λ e. ground (arith, other, e), contains-false ids id (ground (arith, other, h)))
]

within_limit-IsParsed :
    (ids : List I32) → Distinct ids → All IsPositive ids → IsParsed (within_limit ids)
unfolding within_limit bad_request new
within_limit-IsParsed ids d p = elim (Bool-cases (ltb 200 (length ids))) [
  | inl many ↦ rw many refl
  | inr few ↦ rw few (d, p, ground arith)
]

add_id-IsParsed : (id : I32) (ids : List I32) → AreIds ids → IsParsed (add_id id ids)
unfolding add_id with_id bad_request new
add_id-IsParsed id ids h = elim (Bool-cases (lt_i32 0 id)) [
  | inl positive ↦ elim (Bool-cases (contains ids id)) [
    | inl old ↦ rw (positive, old) (within_limit-IsParsed ids h.0 h.1)
    | inr fresh ↦
        rw (positive, fresh)
          (within_limit-IsParsed (ids ++ id ∷ [])
            (Distinct-snoc ids id h.0 (contains-false ids id fresh))
            (All-append IsPositive ids (id ∷ []) h.1 (positive, tt)))
  ]
  | inr rest ↦ rw rest refl
]

module _ (quoted parse_error : Text → Text) where
  add_parsed-IsParsed :
      (value : Text) (o : Option I32) (ids : List I32)
      → AreIds ids
      → IsParsed (add_parsed quoted parse_error value o ids)
  unfolding add_parsed bad_request new
  add_parsed-IsParsed value none ids h = refl
  add_parsed-IsParsed value (some id) ids h = add_id-IsParsed id ids h

  and_then-IsParsed :
      (r : Result ApiError (List I32)) (f : List I32 → Result ApiError (List I32))
      → IsParsed r
      → ((ids : List I32) → AreIds ids → IsParsed (f ids))
      → IsParsed (and_then r f)
  and_then-IsParsed (ok ids) f h k = k ids h
  and_then-IsParsed (err e) f h k = h

  add_values-IsParsed :
      (values : List Text) (ids : List I32)
      → AreIds ids
      → IsParsed (add_values quoted parse_error values ids)
  unfolding add_values
  add_values-IsParsed [] ids h = h
  add_values-IsParsed (value ∷ values) ids h =
      and_then-IsParsed (add_parsed quoted parse_error value (parse_i32 value) ids)
        (add_values quoted parse_error values) (add_parsed-IsParsed value (parse_i32 value) ids h)
        (add_values-IsParsed values)

  -- The ids that a request asks for are distinct, above 0 and at most 200; every other request is
  -- refused with 400.
  pub parse_capture_ids-IsParsed :
      (raw : Option Text) → IsParsed (parse_capture_ids quoted parse_error raw)
  unfolding parse_capture_ids
  parse_capture_ids-IsParsed none = (tt, tt, omega arith)
  parse_capture_ids-IsParsed (some []) = (tt, tt, omega arith)
  parse_capture_ids-IsParsed (some (c ∷ raw)) =
      add_values-IsParsed (split b',' (c ∷ raw)) [] (tt, tt, omega arith)

module _ (text_before : Text → Text → Bool) (user_id : I32) where
  catchup_or_skip-IsOwned :
      (ids : List I32) (r : Result ApiError (List TaskStatusUpdate))
      → ((updates : List TaskStatusUpdate)
          → r ≡ ok updates
          → All (IsScoped user_id (codes "capture") ids) updates)
      → All (IsOwned user_id) (catchup_updates (catchup_or_skip r))
  unfolding catchup_or_skip IsScoped
  catchup_or_skip-IsOwned ids (ok updates) h =
      All-map (IsScoped user_id (codes "capture") ids) (IsOwned user_id) updates (λ e s. s.0)
        (h updates refl)
  catchup_or_skip-IsOwned ids (err e) h = tt

  catchup_of-IsOwned :
      (ids : List I32) (w : World)
      → All (IsOwned user_id) (catchup_updates (catchup_of text_before user_id ids w).0)
  unfolding catchup_of
  catchup_of-IsOwned [] w = tt
  catchup_of-IsOwned (id ∷ ids) w =
      catchup_or_skip-IsOwned (id ∷ ids)
        (events text_before user_id (codes "capture") (id ∷ ids) w).0
        (events-IsScoped user_id (codes "capture") (id ∷ ids) text_before w)

  -- The answer of the route: a stream of items for the user, or a refusal with 400 that touches
  -- nothing.
  abbrev pub IsServed : World → Result ApiError (List HttpStreamItem) × World → Type 0
  IsServed w (ok items, v) = All (IsFor user_id) items
  IsServed w (err e, v) = (e.http_status_code ≡ 400) × (v ≡ w)

  opened-IsServed :
      (turns : List Turn) (r : Result ApiError (List I32)) (w : World)
      → IsParsed r
      → IsServed w (opened text_before user_id turns r w)
  unfolding opened streamed
  opened-IsServed turns (ok ids) w h =
      let (catchup, v) = catchup_of text_before user_id ids w in
      make_sse_stream-IsFor user_id catchup v.now heartbeat_interval turns
        (catchup_of-IsOwned ids w)
  opened-IsServed turns (err e) w h = (h, refl)

  -- Whatever is asked for and happens, the stream that the route opens for a user carries heartbeats
  -- and updates of that user alone, in its catch-up and live; or the request is refused with 400 and
  -- touches nothing.
  pub get-IsServed :
      (quoted parse_error : Text → Text) (raw : Option Text) (turns : List Turn) (w : World)
      → IsServed w (get text_before user_id quoted parse_error raw turns w)
  unfolding get
  get-IsServed quoted parse_error raw turns w =
      opened-IsServed turns (parse_capture_ids quoted parse_error raw) w
        (parse_capture_ids-IsParsed quoted parse_error raw)
