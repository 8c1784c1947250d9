-- ===== src/Recovery/Validate/Activity.antt =====
-- The activity file in `validate_files`: cut back once, it passes.
use solstone_tmux.Base.{
  ℕ, ◌≤◌, ◌≡◌, refl, sym, ap, ◌∙◌, inl, inr, ◌⊎◌, true, ◌||◌, List, [], ◌∷◌, Option, none, some, ok,
  length, take, ◌==◌, Bool-cases, arith,
}
use solstone_tmux.Storage.Disk.{set_len}
use solstone_tmux.Recovery.Prefix.{ends_line}
use solstone_tmux.Recovery.Validate.{line_end, activity_end, check_activity, or_else}
use solstone_tmux.Recovery.Validate.Loop.{length-take, take_all, take-take, set_len-take}

line_end-≤ : (bytes : List ℕ) → line_end bytes ≤ length bytes
unfolding line_end
line_end-≤ [] = omega arith
line_end-≤ (b ∷ bytes) = ground (arith, line_end-≤ bytes)

ends_line-cons : (b : ℕ) (bytes : List ℕ) → ends_line bytes ≡ true → ends_line (b ∷ bytes) ≡ true
unfolding ends_line
ends_line-cons b [] h = ground (arith, h)
ends_line-cons b (c ∷ bytes) h = h

-- Up to the last line break, the bytes end a line.
ends_line-line_end :
    (bytes : List ℕ) → (line_end bytes ≡ 0) ⊎ (ends_line (take (line_end bytes) bytes) ≡ true)
unfolding line_end ends_line
ends_line-line_end [] = inl refl
ends_line-line_end (b ∷ bytes) = elim (ends_line-line_end bytes) [
  | inl z ↦ elim (Bool-cases (b == b'\n')) [
    | inl e ↦ inr (rw (z, e) e)
    | inr e ↦ inl (rw (z, e) refl)
  ]
  | inr h ↦ elim (Bool-cases (line_end bytes == 0)) [
    | inl z ↦ elim (Bool-cases (b == b'\n')) [
      | inl e ↦ inr (rw (z, e) e)
      | inr e ↦ inl (rw (z, e) refl)
    ]
    | inr z ↦ inr (rw z (ends_line-cons b (take (line_end bytes) bytes) h))
  ]
]

activity_end-≤ : (bytes : List ℕ) → activity_end bytes ≤ length bytes
unfolding activity_end
activity_end-≤ bytes = ground (arith, line_end-≤ bytes)

-- What is left ends where the activity file's end was found.
pub activity_end-again :
    (bytes : List ℕ) → activity_end (take (activity_end bytes) bytes) ≡ activity_end bytes
unfolding activity_end
activity_end-again bytes = elim (Bool-cases ((length bytes == 0) || ends_line bytes)) [
  | inl e ↦ rw e (rw (take_all (length bytes) bytes refl) (rw e refl))
  | inr e ↦
      let size = length-take (line_end bytes) bytes (line_end-≤ bytes) in
      rw e (elim (ends_line-line_end bytes) [ inl z ↦ rw z refl | inr h ↦ ground (arith, h, size) ])
]

-- The activity file's check passes on a file that has been cut as the check asked.
pub check_activity-again :
    (bytes : List ℕ) (recorded : ℕ) (cut : Option ℕ) (after : List ℕ)
    → check_activity (some bytes) recorded ≡ ok cut
    → ((cut ≡ none) × (after ≡ bytes))
      ⊎ ((offset : ℕ) × (cut ≡ some offset) × (after ≡ set_len offset bytes))
    → check_activity (some after) (or_else cut recorded) ≡ ok none
unfolding check_activity
check_activity-again bytes recorded cut after h (inl (e, same)) =
    rw (e, same) (ground (arith, h, e))
check_activity-again bytes recorded cut after h (inr (offset, e, same)) =
    let fits : recorded ≤ length bytes = ground (arith, h, e) in
    let found : offset ≡ activity_end (take recorded bytes) = ground (arith, h, e) in
    let inside : offset ≤ recorded =
      omega (arith, found, activity_end-≤ (take recorded bytes), length-take recorded bytes fits) in
    let kept : after ≡ take offset bytes = same ∙ set_len-take offset bytes (omega arith) in
    let size : length after ≡ offset = ap length kept ∙ length-take offset bytes (omega arith) in
    let again : activity_end (take offset after) ≡ offset =
      ap (λ b. activity_end (take offset b)) kept
      ∙ (ap activity_end (
            take-take offset offset bytes (omega arith)
            ∙ sym (take-take offset recorded bytes inside))
          ∙ (ap (λ n. activity_end (take n (take recorded bytes))) found
              ∙ (activity_end-again (take recorded bytes) ∙ sym found))) in
    rw e (ground (arith, size, again))
