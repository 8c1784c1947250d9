-- ===== src/Recovery/Prefix/Again.antt =====
-- The part of a file that `parse_recorded_prefix` accepts is accepted whole when it is parsed again.
use solstone_tmux.Base.{
  ℕ, ◌+◌, ◌≤◌, ◌≡◌, refl, sym, ap, ◌∙◌, subst, inl, inr, Bool, true, false, not, ◌&&◌, List, [],
  ◌∷◌, ◌++◌, Option, Option-cases, Bool-cases, length, length-append, take, take-length-append,
  append_assoc, all, ◌==◌, arith,
}
use solstone_tmux.Recovery.Prefix.{
  cons_line, split_inclusive, ends_line, without_last, last_id, is_stale, Prefix, stop_at,
  parse_line, parse_lines, parse_recorded_prefix,
}

abbrev pub concat : List (List ℕ) → List ℕ
concat [] = []
concat (line ∷ lines) = line ++ concat lines

-- No line's end but at the end, and something in it.
abbrev is_piece : List ℕ → Bool
is_piece [] = false
is_piece (b ∷ []) = true
is_piece (b ∷ c ∷ line) = not (b == b'\n') && is_piece (c ∷ line)

cons_line-concat : (b : ℕ) (lines : List (List ℕ)) → concat (cons_line b lines) ≡ b ∷ concat lines
cons_line-concat b [] = refl
cons_line-concat b (line ∷ lines) = refl

pub concat-split_inclusive : (bytes : List ℕ) → concat (split_inclusive bytes) ≡ bytes
unfolding split_inclusive
concat-split_inclusive [] = refl
concat-split_inclusive (b ∷ bytes) = elim (Bool-cases (b == b'\n')) [
  | inl e ↦ rw e (ap (λ s. b ∷ s) (concat-split_inclusive bytes))
  | inr e ↦
      rw e (
        cons_line-concat b (split_inclusive bytes) ∙ ap (λ s. b ∷ s) (concat-split_inclusive bytes))
]

cons_line-pieces :
    (b : ℕ) (lines : List (List ℕ))
    → (b == b'\n') ≡ false
    → all is_piece lines ≡ true
    → all is_piece (cons_line b lines) ≡ true
cons_line-pieces b [] e h = refl
cons_line-pieces b ([] ∷ lines) e h = ground (arith, h)
cons_line-pieces b ((c ∷ line) ∷ lines) e h = ground (arith, e, h)

split_inclusive-pieces : (bytes : List ℕ) → all is_piece (split_inclusive bytes) ≡ true
unfolding split_inclusive
split_inclusive-pieces [] = refl
split_inclusive-pieces (b ∷ bytes) = elim (Bool-cases (b == b'\n')) [
  | inl e ↦ rw e (split_inclusive-pieces bytes)
  | inr e ↦ rw e (cons_line-pieces b (split_inclusive bytes) e (split_inclusive-pieces bytes))
]

-- A line in front is split off.
pub split_inclusive-line :
    (line rest : List ℕ)
    → is_piece line ≡ true
    → ends_line line ≡ true
    → split_inclusive (line ++ rest) ≡ line ∷ split_inclusive rest
unfolding split_inclusive ends_line
split_inclusive-line [] rest p e = ground (arith, p)
split_inclusive-line (b ∷ []) rest p e = rw e refl
split_inclusive-line (b ∷ c ∷ line) rest p e =
    let other : (b == b'\n') ≡ false = ground (arith, p) in
    rw (other, split_inclusive-line (c ∷ line) rest (ground (arith, p)) e) refl

-- The lines that a run of `parse_lines` accepts, before those it leaves.
record Accepted (frame_id : List ℕ → Option ℕ) (offset : ℕ) (ids : List ℕ) (lines : List (List ℕ))
    (p : Prefix) : Type 0 where
  good : List (List ℕ)
  left : List (List ℕ)
  parts : lines ≡ good ++ left
  ended : all ends_line good ≡ true
  reached : p.offset ≡ offset + length (concat good)
  again : parse_lines frame_id offset ids good ≡ stop_at p.offset p.ids false

module _ (frame_id : List ℕ → Option ℕ) where
  accepts_none :
      (offset : ℕ) (ids : List ℕ) (lines : List (List ℕ)) (torn : Bool)
      → Accepted frame_id offset ids lines (stop_at offset ids torn)
  unfolding parse_lines
  accepts_none offset ids lines torn = record {
    good = [];
    left = lines;
    parts = refl;
    ended = refl;
    reached = omega arith;
    again = refl;
  }

  parse_lines-Accepted :
      (offset : ℕ) (ids : List ℕ) (lines : List (List ℕ))
      → Accepted frame_id offset ids lines (parse_lines frame_id offset ids lines)
  unfolding parse_lines parse_line
  parse_lines-Accepted offset ids [] = accepts_none offset ids [] false
  parse_lines-Accepted offset ids (line ∷ lines) = elim (Bool-cases (ends_line line)) [
    | inr e ↦ rw e (accepts_none offset ids (line ∷ lines) true)
    | inl e ↦ elim (Option-cases (frame_id (without_last line))) [
      | inl f ↦ rw (e, f) (accepts_none offset ids (line ∷ lines) false)
      | inr (id, f) ↦ elim (Bool-cases (is_stale (last_id ids) id)) [
        | inl s ↦ rw (e, f, s) (accepts_none offset ids (line ∷ lines) false)
        | inr s ↦
            let more = parse_lines-Accepted (offset + length line) (ids ++ (id ∷ [])) lines in
            rw (e, f, s)
              (record {
                good = line ∷ more.good;
                left = more.left;
                parts = ap (λ ls. line ∷ ls) more.parts;
                ended = ground (arith, e, more.ended);
                reached = omega (arith, more.reached, length-append line (concat more.good));
                again = rw (e, f, s) more.again;
              })
      ]
    ]
  ]

split_inclusive-concat :
    (good : List (List ℕ))
    → all is_piece good ≡ true
    → all ends_line good ≡ true
    → split_inclusive (concat good) ≡ good
unfolding split_inclusive
split_inclusive-concat [] p e = refl
split_inclusive-concat (line ∷ good) p e =
    split_inclusive-line line (concat good) (ground (arith, p)) (ground (arith, e))
    ∙ ap (λ ls. line ∷ ls) (split_inclusive-concat good (ground (arith, p)) (ground (arith, e)))

concat-append : (xs ys : List (List ℕ)) → concat (xs ++ ys) ≡ concat xs ++ concat ys
concat-append [] ys = refl
concat-append (x ∷ xs) ys =
    ap (λ s. x ++ s) (concat-append xs ys) ∙ sym (append_assoc x (concat xs) (concat ys))

all-first :
    (test : List ℕ → Bool) (xs ys : List (List ℕ)) → all test (xs ++ ys) ≡ true → all test xs ≡ true
all-first test [] ys h = refl
all-first test (x ∷ xs) ys h = ground (arith, h, all-first test xs ys)

-- The offset that parse_recorded_prefix returns lies within the bytes, and the bytes before it parse
-- to the same offset and ids, with nothing torn behind them.
pub parse_recorded_prefix-again :
    (frame_id : List ℕ → Option ℕ) (bytes : List ℕ)
    → let p = parse_recorded_prefix frame_id bytes in
      (parse_recorded_prefix frame_id (take p.offset bytes) ≡ stop_at p.offset p.ids false)
      × (length (take p.offset bytes) ≡ p.offset)
      × (p.offset ≤ length bytes)
unfolding parse_recorded_prefix
parse_recorded_prefix-again frame_id bytes =
    let a = parse_lines-Accepted frame_id 0 [] (split_inclusive bytes) in
    let p = parse_lines frame_id 0 [] (split_inclusive bytes) in
    let whole : bytes ≡ concat a.good ++ concat a.left =
      sym (concat-split_inclusive bytes) ∙ (ap concat a.parts ∙ concat-append a.good a.left) in
    let reached : p.offset ≡ length (concat a.good) = omega (arith, a.reached) in
    let taken : take p.offset bytes ≡ concat a.good =
      ap (λ n. take n bytes) reached
      ∙ (ap (take (length (concat a.good))) whole
          ∙ take-length-append (concat a.good) (concat a.left)) in
    let pieces =
      all-first is_piece a.good a.left
        (subst (λ ls. all is_piece ls ≡ true) a.parts (split_inclusive-pieces bytes)) in
    let split = split_inclusive-concat a.good pieces a.ended in
    (
      ap (λ s. parse_lines frame_id 0 [] (split_inclusive s)) taken
          ∙ (ap (parse_lines frame_id 0 []) split ∙ a.again),
      ap length taken ∙ sym reached,
      omega (arith, reached, ap length whole, length-append (concat a.good) (concat a.left)),
    )
