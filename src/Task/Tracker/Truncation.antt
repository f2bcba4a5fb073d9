-- ===== src/Task/Tracker/Truncation.antt =====
-- The bound on persisted error messages: `truncate_error_message` of src/task/taskruntracker.rs.
use dreamscroll.Base.{
  ℕ, ◌+◌, ◌≤◌, ◌<◌, ◌≡◌, refl, ap, ◌∙◌, ◌⊎◌, inl, inr, Bool, true, false, [], ◌∷◌, ◌++◌, length,
  take, leb, length-append, length-take, drop, take-drop, if◌then◌else◌, arith,
}
use dreamscroll.Base.Text.{Text}
use dreamscroll.Task.Tracker.{truncate_error_message}

-- A part of the text up to an ellipsis, and what is left out.
pub record IsCut (message short : Text) : Type 0 where
  pub kept : Text
  pub dropped : Text
  pub whole : message ≡ kept ++ dropped
  pub shown : short ≡ kept ++ 0x2026 ∷ []
  pub full : length short ≡ 2000

length-cut :
    (message : Text) → 2000 < length message → length (take 1999 message ++ 0x2026 ∷ []) ≡ 2000
length-cut message long =
    length-append (take 1999 message) (0x2026 ∷ [])
    ∙ ap (λ n. n + 1) (length-take 1999 message (omega arith))

leb-true : (n m : ℕ) → leb n m ≡ true → n ≤ m
leb-true n m h = ground arith

leb-false : (n m : ℕ) → leb n m ≡ false → m < n
leb-false n m h = ground arith

cut :
    (message : Text)
    → leb (length message) 2000 ≡ false
    → IsCut message (take 1999 message ++ 0x2026 ∷ [])
cut message h = record {
  kept = take 1999 message;
  dropped = drop 1999 message;
  whole = take-drop 1999 message;
  shown = refl;
  full = length-cut message (leb-false (length message) 2000 h);
}

-- A persisted message has at most 2000 characters: it is the whole message, or its first 1999
-- characters and an ellipsis, 2000 in all, and then the message is longer than 2000 characters.
pub truncate_error_message-bounded :
    (message : Text)
    → let short = truncate_error_message message in
      (length short ≤ 2000) × ((short ≡ message) ⊎ ((2000 < length message) × IsCut message short))
unfolding truncate_error_message
truncate_error_message-bounded message = by_length (leb (length message) 2000) refl
  where
    by_length :
        (fits : Bool)
        → leb (length message) 2000 ≡ fits
        → let short = if fits then message else take 1999 message ++ 0x2026 ∷ [] in
          (length short ≤ 2000)
          × ((short ≡ message) ⊎ ((2000 < length message) × IsCut message short))
    by_length true h = (leb-true (length message) 2000 h, inl refl)
    by_length false h =
        let part = cut message h in
        (omega (arith, part.full), inr (leb-false (length message) 2000 h, part))
