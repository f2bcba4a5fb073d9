-- ===== src/Task/Definition/Identity.antt =====
-- What a logical id identifies: `make_logical_id` of src/task/task_def.rs.
use mathlib.Core.List.{append_cancel_left}
use dreamscroll.Base.{
  ℕ, ◌-◌, ◌<◌, ◌≡◌, ◌≢◌, refl, sym, ap, ◌∙◌, [], ◌∷◌, ◌++◌, inl, inr, ltb, Bool-cases, All, arith,
}
use dreamscroll.Base.Words.{I32}
use dreamscroll.Base.Text.{Text}
use dreamscroll.Base.Decimal.{digits, show_i32}
use dreamscroll.Base.Decimal.RoundTrip.{
  IsDigit, digits-IsDigit, digits-cons, show_i32-small, show_i32-large, show_i32-injective,
}
use dreamscroll.Task.Definition.{Task, make_logical_id}

-- Digits up to a dash are read in one way.
digits_to_dash :
    (s t : Text) {x y : Text}
    → All IsDigit s
    → All IsDigit t
    → s ++ (b'-' ∷ x) ≡ t ++ (b'-' ∷ y)
    → (s ≡ t) × (x ≡ y)
digits_to_dash [] [] p q h = (refl, cc)
digits_to_dash [] (d ∷ t) p q h = absurd (let e : b'-' ≡ d = cc in omega arith)
digits_to_dash (c ∷ s) [] p q h = absurd (let e : c ≡ b'-' = cc in omega arith)
digits_to_dash (c ∷ s) (d ∷ t) {x} {y} p q h =
    let both : (s ≡ t) × (x ≡ y) = digits_to_dash s t p.1 q.1 (cc) in
    let same : s ≡ t = both.0 in (cc, both.1)

text_tail : {c d : ℕ} {s t : Text} → ◌≡◌ {A = Text} (c ∷ s) (d ∷ t) → s ≡ t
text_tail h = cc

-- No print of digits starts with a dash.
unsigned :
    (t : Text) (x y : Text)
    → All IsDigit t
    → (c : ℕ) (s : Text) → t ≡ c ∷ s
    → t ++ (b'-' ∷ x) ≢ b'-' ∷ y
unsigned [] x y p c s e h = absurd (cc)
unsigned (d ∷ t) x y p c s e h = absurd (let q : d ≡ b'-' = cc in omega arith)

digits-unsigned : (n : ℕ) (x y : Text) → digits 10 n [] ++ (b'-' ∷ x) ≢ b'-' ∷ y
digits-unsigned n x y h =
    let (c, s, e) = digits-cons 9 n [] in
    unsigned (digits 10 n []) x y (digits-IsDigit 10 n [] tt) c s e h

module _ (n m : ℕ) {x y : Text} where
  digits_both :
      digits 10 n [] ++ (b'-' ∷ x) ≡ digits 10 m [] ++ (b'-' ∷ y)
      → (digits 10 n [] ≡ digits 10 m []) × (x ≡ y)
  digits_both =
      digits_to_dash (digits 10 n []) (digits 10 m []) (digits-IsDigit 10 n [] tt)
        (digits-IsDigit 10 m [] tt)

-- The print of an `i32` up to a dash is read in one way.
show_i32_to_dash :
    (n m : I32) {x y : Text}
    → show_i32 n ++ (b'-' ∷ x) ≡ show_i32 m ++ (b'-' ∷ y)
    → (show_i32 n ≡ show_i32 m) × (x ≡ y)
show_i32_to_dash n m {x} {y} h = elim (Bool-cases (ltb n 2147483648)) [
  | inl p ↦ elim (Bool-cases (ltb m 2147483648)) [
    | inl q ↦
        let (same, rest) = digits_both n m (cut (show_i32-small n p) (show_i32-small m q) h) in
        (show_i32-small n p ∙ same ∙ sym (show_i32-small m q), rest)
    | inr q ↦ absurd (digits-unsigned n x _ (cut (show_i32-small n p) (show_i32-large m q) h))
  ]
  | inr p ↦ elim (Bool-cases (ltb m 2147483648)) [
    | inl q ↦ absurd (digits-unsigned m y _ (sym (cut (show_i32-large n p) (show_i32-small m q) h)))
    | inr q ↦
        let (same, rest) =
          digits_both (4294967296 - n) (4294967296 - m)
            (text_tail (cut (show_i32-large n p) (show_i32-large m q) h)) in
        (show_i32-large n p ∙ ap (λ t. b'-' ∷ t) same ∙ sym (show_i32-large m q), rest)
  ]
]
  where
    cut :
        {a b c d : Text}
        → a ≡ b
        → c ≡ d
        → a ++ (b'-' ∷ x) ≡ c ++ (b'-' ∷ y)
        → b ++ (b'-' ∷ x) ≡ d ++ (b'-' ∷ y)
    cut e f g = ap (λ t. t ++ (b'-' ∷ x)) (sym e) ∙ g ∙ ap (λ t. t ++ (b'-' ∷ y)) f

module _ {T : Type 0} (t : Task T) (a b : T) where
  -- The runs of a task kind that share a logical id are of one owner's one entity, where both ids
  -- are 32-bit words.
  pub make_logical_id-injective :
      t.entity_owner_id a < 4294967296
      → t.entity_owner_id b < 4294967296
      → t.entity_id a < 4294967296
      → t.entity_id b < 4294967296
      → make_logical_id t a ≡ make_logical_id t b
      → (t.entity_owner_id a ≡ t.entity_owner_id b) × (t.entity_id a ≡ t.entity_id b)
  unfolding make_logical_id
  make_logical_id-injective p q r s h =
      let (owner, rest) =
        show_i32_to_dash (t.entity_owner_id a) (t.entity_owner_id b) (text_tail h) in
      let same = text_tail (append_cancel_left t.task_type _ _ rest) in
      let entity = append_cancel_left t.entity_type _ _ same in
      (
        show_i32-injective (t.entity_owner_id a) (t.entity_owner_id b) p q owner,
        show_i32-injective (t.entity_id a) (t.entity_id b) r s entity,
      )
