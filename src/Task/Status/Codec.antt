-- ===== src/Task/Status/Codec.antt =====
-- Codes and wire forms of src/task/taskrunstatus.rs.
use dreamscroll.Base.{Option, none, some, ◌≡◌, refl, ◌↔◌, ◌<◌, arith}
use mathlib.Core.Path.{subst}
use dreamscroll.Base.Words.{I32}
use dreamscroll.Base.Text.{text_eq_refl, text_eq→eq}
use dreamscroll.Task.Status.{
  TaskRunStatus, submission_failed, as_str, as_i32, from_i32, TaskRunStatusWire, serialize,
  deserialize, matching,
}

pub from_i32-as_i32 : (s : TaskRunStatus) → from_i32 (as_i32 s) ≡ some s
unfolding from_i32 as_i32
from_i32-as_i32 submission_failed = refl
from_i32-as_i32 _ = refl

-- Where decoding succeeds, the status has that code.
pub as_i32-from_i32 : (v : I32) (s : TaskRunStatus) → from_i32 v ≡ some s → as_i32 s ≡ v
unfolding from_i32 as_i32
as_i32-from_i32 v s h = ground arith

pub from_i32-eq-none_iff : (v : I32) → (from_i32 v ≡ none) ↔ (5 < v)
unfolding from_i32
from_i32-eq-none_iff v = (λ h. ground arith, λ h. ground arith)

-- An integer decodes exactly when it is the code of a status, and then to that status: the codes
-- are 0 to 5, every other `i32` is an error.
pub from_i32_exact :
    (v : I32)
    → ((s : TaskRunStatus) → (from_i32 v ≡ some s) ↔ (as_i32 s ≡ v))
      × ((from_i32 v ≡ none) ↔ (5 < v))
from_i32_exact v =
    (λ s. (as_i32-from_i32 v s, λ h. rw (← h) (from_i32-as_i32 s)), from_i32-eq-none_iff v)

decoded :
    (wire : TaskRunStatusWire) (s : TaskRunStatus) (o : Option TaskRunStatus)
    → from_i32 wire.discriminant ≡ o
    → matching wire o ≡ some s
    → serialize s ≡ wire
unfolding matching serialize
decoded wire s none e h = cc
decoded wire s (some t) e h =
    ground (arith, as_i32-from_i32 wire.discriminant t e, text_eq→eq wire.name (as_str t))

deserialize-serialize : (s : TaskRunStatus) → deserialize (serialize s) ≡ some s
unfolding deserialize serialize matching
deserialize-serialize s = rw (from_i32-as_i32 s, matching, text_eq_refl (as_str s))

-- Decoding a wire form gives a status exactly when the wire form is the one that this status is
-- encoded to: the round trip holds, and no form with a wrong name or number is accepted.
pub deserialize_exact :
    (wire : TaskRunStatusWire) (s : TaskRunStatus)
    → (deserialize wire ≡ some s) ↔ (serialize s ≡ wire)
unfolding deserialize
deserialize_exact wire s = (
  decoded wire s (from_i32 wire.discriminant) refl,
  λ h. subst (λ v. deserialize v ≡ some s) h (deserialize-serialize s),
)
