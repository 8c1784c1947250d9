-- ===== src/Tmux/Pattern/Greedy.antt =====
-- The greedy loop takes the leftmost occurrence of each part, and loses no match by it.
use solstone_tmux.Base.{
  ◌≡◌, refl, ◌↔◌, inl, inr, List, [], ◌∷◌, ◌++◌, append_assoc, append-nil, Text, true, some, split,
  strip_prefix, find_after, arith, sym, ap, ◌∙◌, Option-cases, ends_with-append, ends_with→append,
  find_after→append, find_after-leftmost, byte_length-append, strip_prefix→append,
  strip_prefix-append, text_eq→≡, text_eq_refl,
}
use solstone_tmux.Tmux.Pattern.{
  closes, match_parts, match_rest, match_split, matches_session_pattern,
}
use solstone_tmux.Tmux.Pattern.Glob.{Glob, Cuts, Later, Cuts-iff-Glob}

closes→Later : (last rest : Text) → closes last rest ≡ true → Later (last ∷ []) rest
unfolding closes
closes→Later last rest h =
    let (gap, e) = ends_with→append last rest (ground arith) in (gap, last, e, refl)

Later→closes : (last rest : Text) → Later (last ∷ []) rest → closes last rest ≡ true
unfolding closes
Later→closes last rest (gap, tail, e, same) =
    rw (e, same) (ground (arith, ends_with-append gap last, byte_length-append gap last))

Later-append : (parts : List Text) (extra s : Text) → Later parts s → Later parts (extra ++ s)
Later-append parts extra s (gap, rest, e, k) =
    (extra ++ gap, rest, ap (◌++◌ extra) e ∙ sym (append_assoc extra gap rest), k)

match_parts→Later :
    (part : Text) (more : List Text) (rest : Text)
    → match_parts part more rest ≡ true
    → Later (part ∷ more) rest
unfolding match_parts
match_parts→Later last [] rest h = closes→Later last rest h
match_parts→Later part (next ∷ more) rest h = elim (Option-cases (find_after part rest)) [
  | inl miss ↦ absurd (ground arith)
  | inr (after, hit) ↦
      let (gap, e) = find_after→append part rest hit in
      let (gap', tail, e', k) = match_parts→Later next more after (rw (hit, match_parts) at h) in
      (gap, part ++ after, e, (gap', tail, ap (◌++◌ part) e', k))
]

Later→match_parts :
    (part : Text) (more : List Text) (rest : Text)
    → Later (part ∷ more) rest
    → match_parts part more rest ≡ true
unfolding match_parts
Later→match_parts last [] rest h = Later→closes last rest h
Later→match_parts part (next ∷ more) rest (gap, s, e, (gap', tail, e', k)) =
    let (after, extra, hit, longer) = find_after-leftmost part gap (gap' ++ tail) in
    let found : find_after part rest ≡ some after =
      ap (find_after part) (e ∙ ap (◌++◌ gap) e') ∙ hit in
    rw (found, match_parts)
      (Later→match_parts next more after
        (rw longer (Later-append (next ∷ more) extra (gap' ++ tail) (gap', tail, refl, k))))

match_split→Cuts : (parts : List Text) (s : Text) → match_split parts s ≡ true → Cuts parts s
unfolding match_split match_rest
match_split→Cuts [] s h = cc
match_split→Cuts (first ∷ []) s h = elim (Option-cases (strip_prefix first s)) [
  | inl miss ↦ absurd (ground arith)
  | inr (r, hit) ↦
      strip_prefix→append first s hit
      ∙ ap (◌++◌ first) (text_eq→≡ r [] (rw (hit, match_split) at h))
      ∙ append-nil first
]
match_split→Cuts (first ∷ part ∷ more) s h = elim (Option-cases (strip_prefix first s)) [
  | inl miss ↦ absurd (ground arith)
  | inr (r, hit) ↦
      let (gap, rest, e, k) = match_parts→Later part more r (rw (hit, match_split) at h) in
      (gap, rest, strip_prefix→append first s hit ∙ ap (◌++◌ first) e, k)
]

Cuts→match_split : (parts : List Text) (s : Text) → Cuts parts s → match_split parts s ≡ true
unfolding match_split match_rest
Cuts→match_split [] s h = absurd h
Cuts→match_split (first ∷ []) s h =
    let hit : strip_prefix first s ≡ some [] =
      ap (strip_prefix first) (h ∙ sym (append-nil first)) ∙ strip_prefix-append first [] in
    rw (hit, match_split) (text_eq_refl [])
Cuts→match_split (first ∷ part ∷ more) s (gap, rest, e, k) =
    let hit : strip_prefix first s ≡ some (gap ++ rest) =
      ap (strip_prefix first) e ∙ strip_prefix-append first (gap ++ rest) in
    rw (hit, match_split) (Later→match_parts part more (gap ++ rest) (gap, rest, refl, k))

-- The test selects exactly the session names that the pattern describes: it says yes if and only if
-- the name can be read off the pattern with `*` for any run of characters (the empty run included)
-- and every other character for itself.
pub matches_session_pattern-iff-Glob :
    (pattern session : Text)
    → (matches_session_pattern pattern session ≡ true) ↔ Glob pattern session
unfolding matches_session_pattern
matches_session_pattern-iff-Glob pattern session =
    let parts = split b'*' pattern in
    let glob = Cuts-iff-Glob pattern session in
    (λ h. glob.0 (match_split→Cuts parts session h), λ g. Cuts→match_split parts session (glob.1 g))
