-- ===== src/Recovery/Validate/Turns.antt =====
-- Every turn of the loop that does not stop, and what it does.
use solstone_tmux.Base.{
  ℕ, ◌≤◌, ◌≡◌, refl, sym, ap, ◌∙◌, subst, inl, inr, ◌⊎◌, true, false, List, [], ◌∷◌, ◌++◌, Option,
  none, some, Result, ok, err, get, insert, length, take, drop, append-nil, ltb, ◌==◌, ==_iff,
  contains, All, Bool-cases, arith,
}
use solstone_tmux.Base.Stepwise.{◌>>=◌, bind-ok}
use solstone_tmux.Storage.{SessionMetadata}
use solstone_tmux.Storage.Disk.{set_len}
use solstone_tmux.Recovery.Prefix.{Prefix, stop_at, parse_recorded_prefix, last_id}
use solstone_tmux.Recovery.Prefix.Again.{parse_recorded_prefix-again}
use solstone_tmux.Recovery.Validate.{
  Directory, FileRepair, RecoveryError, Progress, at_offset, or_zero, cut_back, cut_entry,
  check_prefix, check_suffix, read_session, check_session, question,
}
use solstone_tmux.Recovery.Validate.Loop.{
  cuts, cuts_one, IsSettled, NotBoth, Turn, insert-same, length-take, take_all, set_len-take,
}

pub question-ok : {A : Type 0} (r : Result RecoveryError A) (a : A) → question r ≡ ok a → r ≡ ok a
question-ok (ok b) a h = ap ok (ground (arith, h))
question-ok (err e) a h = ground (arith, h)

read_session-ok :
    (o : Option (List ℕ)) (s : SessionMetadata) (bytes : List ℕ)
    → read_session o s ≡ ok bytes
    → (o ≡ some bytes) × (s.durable_offset ≤ length bytes)
unfolding read_session
read_session-ok none s bytes h = ground (arith, h)
read_session-ok (some b) s bytes h =
    let same : b ≡ bytes = ground (arith, h) in (ap some same, rw (← same) (ground (arith, h)))

check_suffix-ok :
    (s : SessionMetadata) (bytes : List ℕ) (done next : Progress)
    → check_suffix s bytes done ≡ ok next
    → ((ltb s.durable_offset (length bytes) ≡ false) × (next ≡ done))
      ⊎ ((ltb s.durable_offset (length bytes) ≡ true)
          × (next ≡ record done {
            repairs = done.repairs ++ (at_offset s.filename s.durable_offset ∷ []);
          }))
unfolding check_suffix
check_suffix-ok s bytes done next h = elim (Bool-cases (ltb s.durable_offset (length bytes))) [
  | inr e ↦ inl (e, ground (arith, h, e))
  | inl e ↦ elim (Bool-cases (contains b'\n' (drop s.durable_offset bytes))) [
    | inl c ↦ ground (arith, h, e, c)
    | inr c ↦ inr (e, ground (arith, h, e, c))
  ]
]

abbrev torn_progress : SessionMetadata → Prefix → Progress → Progress
torn_progress s p done = record done {
  updated = insert s.session (cut_back s p) done.updated;
  repairs = done.repairs ++ (at_offset s.filename p.offset ∷ []);
}

cut_entry-some :
    (s : SessionMetadata) (p : Prefix) (done next : Progress) (o : Option SessionMetadata)
    → o ≡ some s
    → (cut_entry s.session p done.updated o >>= λ updated. ok (record done {
      updated = updated;
      repairs = done.repairs ++ (at_offset s.filename p.offset ∷ []);
    }))
      ≡ ok next
    → next ≡ torn_progress s p done
unfolding cut_entry ◌>>=◌
cut_entry-some s p done next none e h = ground (arith, e)
cut_entry-some s p done next (some t) e h =
    let same : t ≡ s = ground (arith, e) in
    sym (
      subst
        (λ x.
          record done {
            updated = insert s.session (cut_back x p) done.updated;
            repairs = done.repairs ++ (at_offset s.filename p.offset ∷ []);
          }
          ≡ next)
        same (ground (arith, h)))

check_prefix-ok :
    (s : SessionMetadata) (p : Prefix) (done next : Progress)
    → get s.session done.updated ≡ some s
    → check_prefix s p done ≡ ok next
    → ((p.torn ≡ false)
        × (p.offset ≡ s.durable_offset)
        × (or_zero (last_id p.ids) ≡ s.last_frame_id)
        × (next ≡ done))
      ⊎ ((p.torn ≡ true) × (next ≡ torn_progress s p done))
unfolding check_prefix
check_prefix-ok s p done next g h = elim (Bool-cases p.torn) [
  | inl t ↦
      inr (t, cut_entry-some s p done next (get s.session done.updated) g (ground (arith, h, t)))
  | inr t ↦ elim (Bool-cases (p.offset == s.durable_offset)) [
    | inr o ↦ ground (arith, h, t, o)
    | inl o ↦ elim (Bool-cases (or_zero (last_id p.ids) == s.last_frame_id)) [
      | inr l ↦ ground (arith, h, t, o, l)
      | inl l ↦ inl (
        t,
        (==_iff p.offset s.durable_offset).0 o,
        (==_iff (or_zero (last_id p.ids)) s.last_frame_id).0 l,
        ground (arith, h, t, o, l),
      )
    ]
  ]
]

module _ (frame_id : List ℕ → Option ℕ) (s : SessionMetadata) (bytes : List ℕ) where
  abbrev parsed : Prefix
  parsed = parse_recorded_prefix frame_id (take s.durable_offset bytes)

  -- The recorded part is whole: with the bytes behind it cut off, the file is settled.
  whole-IsSettled :
      s.durable_offset ≤ length bytes
      → parsed.torn ≡ false
      → parsed.offset ≡ s.durable_offset
      → or_zero (last_id parsed.ids) ≡ s.last_frame_id
      → IsSettled frame_id (take s.durable_offset bytes) s parsed.ids
  whole-IsSettled fits t o l = record {
    size = length-take s.durable_offset bytes fits;
    parsed =
        ap (λ x. stop_at x parsed.ids parsed.torn) o
        ∙ ap (λ x. stop_at s.durable_offset parsed.ids x) t;
    last = l;
  }

  -- The recorded part is torn: cut back to its last whole frame, the file is settled.
  torn-IsSettled :
      s.durable_offset ≤ length bytes
      → ltb s.durable_offset (length bytes) ≡ false
      → IsSettled frame_id (set_len parsed.offset bytes) (cut_back s parsed) parsed.ids
  unfolding cut_back
  torn-IsSettled fits short =
      let (again, size, inside) =
        parse_recorded_prefix-again frame_id (take s.durable_offset bytes) in
      let all_of : take s.durable_offset bytes ≡ bytes =
        take_all s.durable_offset bytes (ground (arith, fits, short)) in
      let within : parsed.offset ≤ length bytes = omega (arith, inside, ap length all_of) in
      let cut : set_len parsed.offset bytes ≡ take parsed.offset (take s.durable_offset bytes) =
        set_len-take parsed.offset bytes within ∙ ap (take parsed.offset) (sym all_of) in
      record {
        size = ap length cut ∙ size;
        parsed = ap (parse_recorded_prefix frame_id) cut ∙ again;
        last = refl;
      }

module _ (frame_id : List ℕ → Option ℕ) (directory : Directory) (s : SessionMetadata)
    (bytes : List ℕ) (found : directory.read s.filename ≡ ok (some bytes))
    (fits : s.durable_offset ≤ length bytes) (done : Progress) where
  abbrev with_ids : Progress → Progress
  with_ids checked = record checked {
    ids = checked.ids ++ (parse_recorded_prefix frame_id (take s.durable_offset bytes)).ids;
  }

  whole-Turn :
      (repairs : List FileRepair)
      → get s.session done.updated ≡ some s
      → All (λ r. r.filename ≡ s.filename) repairs
      → cuts s.filename repairs bytes ≡ take s.durable_offset bytes
      → IsSettled frame_id (take s.durable_offset bytes) s (parsed frame_id s bytes).ids
      → Turn frame_id directory s done
          (with_ids (record done { repairs = done.repairs ++ repairs }))
  whole-Turn repairs g own same settled = record {
    bytes = bytes;
    found = found;
    cut = s;
    repairs = repairs;
    ids = (parsed frame_id s bytes).ids;
    updated_is = sym (insert-same s.session s done.updated g);
    repairs_are = refl;
    ids_are = refl;
    same_name = refl;
    same_session = refl;
    own = own;
    settled = rw same settled;
  }

  torn-Turn :
      ltb s.durable_offset (length bytes) ≡ false
      → Turn frame_id directory s done (with_ids (torn_progress s (parsed frame_id s bytes) done))
  unfolding cut_back
  torn-Turn short = record {
    bytes = bytes;
    found = found;
    cut = cut_back s (parsed frame_id s bytes);
    repairs = at_offset s.filename (parsed frame_id s bytes).offset ∷ [];
    ids = (parsed frame_id s bytes).ids;
    updated_is = refl;
    repairs_are = refl;
    ids_are = refl;
    same_name = refl;
    same_session = refl;
    own = (refl, tt);
    settled =
        rw (cuts_one s.filename (parsed frame_id s bytes).offset bytes)
          (torn-IsSettled frame_id s bytes fits short);
  }

  checked-Turn :
      (cut checked next : Progress)
      → get s.session done.updated ≡ some s
      → NotBoth frame_id s bytes
      → check_prefix s (parsed frame_id s bytes) done ≡ ok cut
      → check_suffix s bytes cut ≡ ok checked
      → with_ids checked ≡ next
      → Turn frame_id directory s done next
  checked-Turn cut checked next g once e f n =
      elim (check_prefix-ok s (parsed frame_id s bytes) done cut g e) [
        | inl (t, o, l, same) ↦
            let settled = whole-IsSettled frame_id s bytes fits t o l in
            elim (check_suffix-ok s bytes cut checked f) [
              | inl (short, kept) ↦
                  let all_of : bytes ≡ take s.durable_offset bytes =
                    sym (take_all s.durable_offset bytes (ground (arith, fits, short))) in
                  let e : with_ids (record done { repairs = done.repairs ++ [] }) ≡ next =
                    ap (λ rs. with_ids (record done { repairs = rs })) (append-nil done.repairs)
                    ∙ (ap with_ids (sym (kept ∙ same)) ∙ n) in
                  subst (Turn frame_id directory s done) e (whole-Turn [] g tt all_of settled)
              | inr (long, kept) ↦
                  let add : Progress → Progress = λ c. record c {
                    repairs = c.repairs ++ (at_offset s.filename s.durable_offset ∷ []);
                  } in
                  let made : checked ≡ add done = kept ∙ ap add same in
                  subst (Turn frame_id directory s done) (ap with_ids (sym made) ∙ n) (
                    whole-Turn (at_offset s.filename s.durable_offset ∷ []) g (refl, tt)
                      (cuts_one s.filename s.durable_offset bytes
                        ∙ set_len-take s.durable_offset bytes fits)
                      settled)
            ]
        | inr (t, same) ↦
            let short = once t in
            elim (check_suffix-ok s bytes cut checked f) [
              | inl (_, kept) ↦
                  subst (Turn frame_id directory s done) (ap with_ids (sym (kept ∙ same)) ∙ n)
                    (torn-Turn short)
              | inr (long, kept) ↦ ground (arith, long, short)
            ]
      ]

module _ (frame_id : List ℕ → Option ℕ) (directory : Directory) (s : SessionMetadata) where
  pub check_session-Turn :
      (done next : Progress)
      → get s.session done.updated ≡ some s
      → ((bytes : List ℕ) → directory.read s.filename ≡ ok (some bytes) → NotBoth frame_id s bytes)
      → check_session frame_id directory s done ≡ ok next
      → Turn frame_id directory s done next
  unfolding check_session
  check_session-Turn done next g once h =
      let (found, e1, h1) = bind-ok _ _ next h in
      let (bytes, e2, h2) = bind-ok _ _ next h1 in
      let (cut, e3, h3) = bind-ok _ _ next h2 in
      let (checked, e4, h4) = bind-ok _ _ next h3 in
      let (there, fits) = read_session-ok found s bytes e2 in
      let read : directory.read s.filename ≡ ok (some bytes) =
        question-ok (directory.read s.filename) found e1 ∙ ap ok there in
      checked-Turn frame_id directory s bytes read fits done cut checked next g (once bytes read) e3
        e4 (ground (arith, h4))
