-- ===== src/Storage/File/Blocks.antt =====
-- The blocks of `FileStorage` one by one: what the session's file and the others hold after them.
use solstone_tmux.Base.{
  ℕ, zero, suc, ◌+◌, ◌-◌, ◌≤◌, ◌≡◌, refl, ap, subst, ◌∙◌, ◌⊎◌, inl, inr, Bool, true, false, not,
  List, [], ◌∷◌, ◌++◌, Text, Option, get-insert, append-nil, arith, length, length-append, take,
  drop, take-length-append, text_eq, text_eq_iff, ◌==◌, if◌then◌else◌, Bool-cases,
}
use solstone_tmux.Storage.{AppendFrame}
use solstone_tmux.Storage.Disk.{View, stored, is_open, write_at, set_len}
use solstone_tmux.Storage.Triple.{
  Triple, Triple-bind, Triple-pure, Triple-raise, Triple-asks, Triple-if, Triple-weaken,
  Triple-silent, Triple-changing, Triple-modify, Triple-take_fault, Triple-file_is_regular,
}
use solstone_tmux.Storage.File.{
  with_content, handle, roll_back, write_all, write_frame, append_inner,
}
use Prim.Native.String.{String}

-- The session's file `name` holds `content`, and the others hold what they held in `v0`.
pub record Holds (name : Text) (content : List ℕ) (v0 v : View) : Type 0 where
  pub content_is : stored v name ≡ content
  pub others : (other : Text) → text_eq name other ≡ false → stored v other ≡ stored v0 other

stored-with_content :
    (name other : Text) (change : List ℕ → List ℕ) (v : View)
    → stored (with_content name change v) other
      ≡ (if text_eq name other then change (stored v name) else stored v other)
unfolding stored with_content
stored-with_content name other change v = elim (Bool-cases (text_eq name other)) [
  | inl e ↦ rw (get-insert name other _ v.files, e) refl
  | inr e ↦ rw (get-insert name other _ v.files, e) refl
]

Holds-with_content :
    (name : Text) (content content' : List ℕ) (change : List ℕ → List ℕ) (v0 v : View)
    → change content ≡ content'
    → Holds name content v0 v
    → Holds name content' v0 (with_content name change v)
Holds-with_content name content content' change v0 v e h = record {
  content_is =
      rw (stored-with_content name name change v, (text_eq_iff name name).1 refl, h.content_is, e)
        refl;
  others = λ other d. rw (stored-with_content name other change v, d) (h.others other d);
}

take_all : (xs : List ℕ) → take (length xs) xs ≡ xs
take_all [] = refl
take_all (x ∷ xs) = ap (◌∷◌ x) (take_all xs)

drop_all : (n : ℕ) (xs : List ℕ) → length xs ≤ n → drop n xs ≡ []
drop_all zero [] h = refl
drop_all (suc n) [] h = refl
drop_all zero (x ∷ xs) h = ground arith
drop_all (suc n) (x ∷ xs) h = drop_all n xs (omega arith)

write_at_lem : (old bytes : List ℕ) → write_at (length old) bytes old ≡ old ++ bytes
unfolding write_at
write_at_lem old bytes =
    rw (take_all old, drop_all (length old + length bytes) old (omega arith), append-nil bytes) refl

set_len_lem : (old extra : List ℕ) → set_len (length old) (old ++ extra) ≡ old
unfolding set_len
set_len_lem old extra =
    let e : length old - length (old ++ extra) ≡ 0 = omega (arith, length-append old extra) in
    rw (take-length-append old extra, e, append-nil old) refl

-- `M` is what is known of the metadata file.
module _ (name : Text) (old : List ℕ) (v0 : View) (M : Option (List ℕ) → Type 0) where
  abbrev pub Untouched : View → Type 0
  Untouched v = Holds name old v0 v × M v.metadata

  -- The session's file holds what it held, with perhaps more behind; then the handle is open.
  pub record Grown (v : View) : Type 0 where
    pub extra : List ℕ
    pub holds : Holds name (old ++ extra) v0 v
    pub reach : (extra ≡ []) ⊎ (is_open v name ≡ true)
    pub kept : M v.metadata

  pub record Ready (content : List ℕ) (v : View) : Type 0 where
    pub holds : Holds name content v0 v
    pub opened : is_open v name ≡ true
    pub kept : M v.metadata

  pub Grown-Untouched : (v : View) → Untouched v → Grown v
  Grown-Untouched v (h, k) = record {
    extra = [];
    holds = rw (append-nil old) h;
    reach = inl refl;
    kept = k;
  }

  pub Grown-Ready : (extra : List ℕ) (v : View) → Ready (old ++ extra) v → Grown v
  Grown-Ready extra v r = record {
    extra = extra;
    holds = r.holds;
    reach = inr r.opened;
    kept = r.kept;
  }

  Ready-Untouched : (v : View) → Ready old v → Untouched v
  Ready-Untouched v r = (r.holds, r.kept)

  pub Grown-start : (v : View) → Ready old v → Grown v
  Grown-start v r = Grown-Untouched v (Ready-Untouched v r)

  Ready-modify : (v : View) → Untouched v → Ready old (record v { handles = name ∷ v.handles })
  unfolding stored is_open
  Ready-modify v (h, k) = record {
    holds = record { content_is = h.content_is; others = h.others };
    opened = rw ((text_eq_iff name name).1 refl) refl;
    kept = k;
  }

  pub handle-Ready : Triple Untouched (handle name) (λ _. Ready old) (λ _. Grown)
  unfolding handle with_content
  handle-Ready = Triple-bind _ _ (Triple-asks _) λ present.
      Triple-if present _ _
        (λ e. Triple-pure tt λ v (h, o). record { holds = h.0; opened = o ∙ e; kept = h.1 })
        (λ e.
          Triple-bind _ _
            (Triple-changing {Q = Untouched} _ _ _
              (λ v (h, o). (Holds-with_content name old old (λ x. x) v0 v refl h.0, h.1))
              (λ n x v (h, o). Grown-Untouched v h))
            λ _. Triple-bind _ _ (Triple-silent _ λ x v. Grown-Untouched v) λ _.
              Triple-bind _ _ (Triple-silent _ λ x v. Grown-Untouched v) λ _.
                Triple-bind _ _ (Triple-file_is_regular name) λ regular.
                  Triple-if regular _ _ (λ e. Triple-modify _ Ready-modify)
                    (λ e. Triple-raise _ Grown-Untouched))

  pub roll_back-Untouched :
      Triple Grown
        (roll_back name (length old))
        (λ _. Untouched)
        (λ _ v. (other : Text) → text_eq name other ≡ false → stored v other ≡ stored v0 other)
  unfolding roll_back with_content
  roll_back-Untouched = Triple-bind _ _ (Triple-take_fault _) λ injected.
      Triple-if injected _ _ (λ e. Triple-raise _ λ v g. g.holds.others)
        (λ e. Triple-bind _ _ (Triple-asks _) λ present.
          Triple-if (not present) _ _
            (λ e. Triple-pure tt λ v (g, o). elim g.reach [
              | inl empty ↦ (
                subst (λ x. Holds name x v0 v) (ap (λ y. old ++ y) empty ∙ append-nil old) g.holds,
                g.kept,
              )
              | inr opened ↦ ground arith
            ])
            (λ e.
              Triple-bind _ _
                (Triple-changing {Q = Untouched} _ _ _
                  (λ v (g, o). (
                    Holds-with_content name _ old (set_len (length old)) v0 v
                        (set_len_lem old g.extra) g.holds,
                    g.kept,
                  ))
                  (λ n x v (g, o). g.holds.others))
                λ _. Triple-bind _ _ (Triple-silent _ λ x v h. h.0.others) λ _.
                  Triple-bind _ _ (Triple-silent _ λ x v h. h.0.others)
                    λ _. Triple-silent _ λ x v h. h.0.others))

  Ready-write :
      (bytes : List ℕ) (v : View)
      → Ready old v
      → Ready (old ++ bytes) (with_content name (write_at (length old) bytes) v)
  unfolding is_open with_content
  Ready-write bytes v r = record {
    holds =
        Holds-with_content name old (old ++ bytes) (write_at (length old) bytes) v0 v
          (write_at_lem old bytes) r.holds;
    opened = r.opened;
    kept = r.kept;
  }

  write_all-Ready :
      (stage : String) (bytes : List ℕ)
      → Triple
          (Ready old)
          (write_all stage name (length old) bytes)
          (λ _. Ready (old ++ bytes))
          (λ _. Grown)
  unfolding write_all
  write_all-Ready stage bytes =
      Triple-changing _ _ _ (Ready-write bytes)
        λ n x v r. Grown-Ready (take n bytes) _ (Ready-write (take n bytes) v r)

  pub write_frame-Ready :
      (frame : AppendFrame) (a f s : Bool)
      → frame.filename ≡ name
      → frame.previous_offset ≡ length old
      → Triple (Ready old) (write_frame frame a f s) (λ _. Ready (old ++ frame.bytes)) (λ _. Grown)
  unfolding write_frame
  write_frame-Ready frame a f s e o =
      rw (e, o)
        (Triple-if a _ _
          (λ _. Triple-bind _ _ (write_all-Ready _ _) λ _. Triple-raise _ λ v r. Grown-Ready _ v r)
          (λ _. Triple-bind _ _ (write_all-Ready _ _) λ _.
            Triple-if f _ _ (λ _. Triple-raise _ λ v r. Grown-Ready _ v r)
              (λ _. Triple-bind _ _ (Triple-silent _ λ x v r. Grown-Ready _ v r) λ _.
                Triple-if s _ _ (λ _. Triple-raise _ λ v r. Grown-Ready _ v r)
                  (λ _.
                    Triple-bind _ _ (Triple-silent _ λ x v r. Grown-Ready _ v r)
                      λ _. Triple-silent _ λ x v r. Grown-Ready _ v r))))

  pub append_inner-Ready :
      (frame : AppendFrame)
      → frame.filename ≡ name
      → frame.previous_offset ≡ length old
      → Triple Untouched (append_inner frame) (λ _. Ready (old ++ frame.bytes)) (λ _. Grown)
  unfolding append_inner
  append_inner-Ready frame e o = Triple-bind _ _ (Triple-take_fault _) λ a.
      Triple-bind _ _ (Triple-take_fault _) λ f. Triple-bind _ _ (Triple-take_fault _) λ s.
        Triple-bind _ _ (rw e handle-Ready) λ _.
          Triple-bind _ _ (Triple-silent _ λ x. Grown-start) λ _.
            Triple-bind _ _ (Triple-asks _) λ actual.
              Triple-if (not (actual == frame.previous_offset)) _ _
                (λ _. Triple-raise _ λ v h. Grown-start v h.0)
                (λ _.
                  Triple-weaken _
                    (Triple-bind _ _ (Triple-silent _ λ x. Grown-start)
                      λ _. write_frame-Ready frame a f s e o)
                    (λ v h. h.0) (λ x v h. h) (λ x v h. h))
