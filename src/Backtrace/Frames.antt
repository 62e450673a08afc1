-- ===== src/Backtrace/Frames.antt =====
-- The frames of `struct mut_backtrace`, in the order in which they were entered.
use mut.Base.{
  ℕ, ◌≤◌, ◌≡◌, Bool, true, false, List, [], ◌∷◌, ◌++◌, if◌then◌else◌, ltb, length, length-append,
  arith,
}

-- `mut_backtrace_frames_max`
abbrev pub frames_max : ℕ
frames_max = 20

-- `mut_backtrace_enter`: true for its result 1, false for its result -1.
unfoldable pub enter : List ℕ → ℕ → Bool × List ℕ
enter frames ra =
    if ltb (length frames) frames_max then (true, frames ++ ra ∷ []) else (false, frames)

-- Entering a return address into a backtrace within its bound stays within the bound, and is
-- refused only if the backtrace is full.
pub enter_bounds :
    (frames : List ℕ) (ra : ℕ)
    → length frames ≤ frames_max
    → (length (enter frames ra).1 ≤ frames_max)
      × ((enter frames ra).0 ≡ false → length frames ≡ frames_max)
unfolding enter
enter_bounds frames ra h = ground (arith, length-append frames (ra ∷ []))
