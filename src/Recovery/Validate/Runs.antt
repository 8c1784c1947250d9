-- ===== src/Recovery/Validate/Runs.antt =====
-- A run of the loop of `validate_files`, by induction on the sessions that are left.
use solstone_tmux.Base.{
  ℕ, ◌≡◌, refl, sym, ap, ◌∙◌, subst, inl, inr, false, List, [], ◌∷◌, ◌++◌, Text, Option, none, some,
  Map, ok, get, insert, append-nil, append_assoc, text_eq, text_eq_iff, text_eq_comm, All,
  All-append, Bool-cases, arith,
}
use solstone_tmux.Base.Stepwise.{bind-ok}
use solstone_tmux.Storage.{SessionMetadata}
use solstone_tmux.Segment.Sound.{KeysDistinct}
use solstone_tmux.Recovery.Validate.{Directory, FileRepair, Progress, check_sessions, is_expected}
use solstone_tmux.Recovery.Validate.Loop.{
  cuts, cuts-append, Elsewhere, cuts-Elsewhere, NotBoth, Turn,
}
use solstone_tmux.Recovery.Validate.Turns.{check_session-Turn}
use solstone_tmux.Recovery.Validate.Repairs.{Reading, AllSettled}

-- Every session stands under its own name.
abbrev pub OwnKeys : Map SessionMetadata → Type 0
OwnKeys sessions = All (λ (k, s). s.session ≡ k) sessions

-- No session has a file of this name.
abbrev pub NoFile : Text → Map SessionMetadata → Type 0
NoFile name sessions = All (λ (k, s). text_eq s.filename name ≡ false) sessions

abbrev pub FilesDistinct : Map SessionMetadata → Type 0
FilesDistinct [] = Unit {0}
FilesDistinct ((k, s) ∷ rest) = NoFile s.filename rest × FilesDistinct rest

-- What the directory's files become under repairs, for the files of these sessions.
abbrev pub Repaired : Directory → Reading → List FileRepair → Map SessionMetadata → Type 0
Repaired directory read repairs sessions =
    All
      (λ (k, s).
        (bytes : List ℕ)
        → directory.read s.filename ≡ ok (some bytes)
        → read s.filename ≡ ok (some (cuts s.filename repairs bytes)))
      sessions

pub record Run (frame_id : List ℕ → Option ℕ) (directory : Directory)
    (front todo : Map SessionMetadata) (done next : Progress) : Type 0 where
  pub sessions : Map SessionMetadata
  pub repairs : List FileRepair
  pub ids : List ℕ
  pub updated_is : next.updated ≡ front ++ sessions
  pub repairs_are : next.repairs ≡ done.repairs ++ repairs
  pub ids_are : next.ids ≡ done.ids ++ ids
  pub same_names : (name : Text) → is_expected sessions name ≡ is_expected todo name
  pub elsewhere : (name : Text) → NoFile name todo → Elsewhere name repairs
  pub settled :
      (read : Reading)
      → Repaired directory read repairs todo
      → AllSettled frame_id read sessions ids

get-front :
    (key : Text) (s : SessionMetadata) (front rest : Map SessionMetadata)
    → get key front ≡ none
    → get key (front ++ ((key, s) ∷ rest)) ≡ some s
unfolding get
get-front key s [] rest h = rw ((text_eq_iff key key).1 refl) refl
get-front key s ((k, v) ∷ front) rest h = elim (Bool-cases (text_eq k key)) [
  | inl e ↦ ground (arith, h, e)
  | inr e ↦ rw e (get-front key s front rest (ground (arith, h, e)))
]

insert-front :
    (key : Text) (s t : SessionMetadata) (front rest : Map SessionMetadata)
    → get key front ≡ none
    → insert key t (front ++ ((key, s) ∷ rest)) ≡ front ++ ((key, t) ∷ rest)
unfolding get insert
insert-front key s t [] rest h = rw ((text_eq_iff key key).1 refl) refl
insert-front key s t ((k, v) ∷ front) rest h = elim (Bool-cases (text_eq k key)) [
  | inl e ↦ ground (arith, h, e)
  | inr e ↦ rw e (ap (λ m. (k, v) ∷ m) (insert-front key s t front rest (ground (arith, h, e))))
]

get-append :
    (key : Text) (front more : Map SessionMetadata)
    → get key front ≡ none
    → get key more ≡ none
    → get key (front ++ more) ≡ none
unfolding get
get-append key [] more h g = g
get-append key ((k, v) ∷ front) more h g = elim (Bool-cases (text_eq k key)) [
  | inl e ↦ ground (arith, h, e)
  | inr e ↦ rw e (get-append key front more (ground (arith, h, e)) g)
]

-- The keys that are left are not among those in front.
abbrev pub Fresh : Map SessionMetadata → Map SessionMetadata → Type 0
Fresh front todo = All (λ (k, s). get k front ≡ none) todo

Fresh-next :
    (front rest : Map SessionMetadata) (key : Text) (t : SessionMetadata)
    → Fresh front rest
    → get key rest ≡ none
    → Fresh (front ++ ((key, t) ∷ [])) rest
unfolding get
Fresh-next front [] key t f g = tt
Fresh-next front ((k, s) ∷ rest) key t f g =
    let differ : text_eq key k ≡ false = ground (arith, g, text_eq_iff key k, text_eq_iff k key) in
    let one : get k ((key, t) ∷ []) ≡ none = rw differ refl in
    (
      get-append k front ((key, t) ∷ []) (f.0) one,
      Fresh-next front rest key t (f.1) (ground (arith, g, text_eq_iff key k, text_eq_iff k key)),
    )

own-Elsewhere :
    (file name : Text) (rs : List FileRepair)
    → All (λ r. r.filename ≡ file) rs
    → text_eq file name ≡ false
    → Elsewhere name rs
own-Elsewhere file name [] o h = tt
own-Elsewhere file name (r ∷ rs) o h = (rw (o.0) h, own-Elsewhere file name rs (o.1) h)

-- Repairs of one file do not touch the files of the other sessions.
Repaired-rest :
    (directory : Directory) (read : Reading) (file : Text) (rs more : List FileRepair)
    (rest : Map SessionMetadata)
    → All (λ r. r.filename ≡ file) rs
    → NoFile file rest
    → Repaired directory read (rs ++ more) rest
    → Repaired directory read more rest
Repaired-rest directory read file rs more [] own others h = tt
Repaired-rest directory read file rs more ((k, s) ∷ rest) own others h =
    let apart = own-Elsewhere file s.filename rs own (text_eq_comm s.filename file (others.0)) in
    (
      (λ bytes found.
          h.0 bytes found
          ∙ ap (λ b. ok (some b))
              (cuts-append s.filename rs more bytes
                ∙ ap (cuts s.filename more) (cuts-Elsewhere s.filename rs bytes apart))),
      Repaired-rest directory read file rs more rest own (others.1) (h.1),
    )

module _ (frame_id : List ℕ → Option ℕ) (directory : Directory) where
  abbrev pub Once : Map SessionMetadata → Type 0
  Once sessions =
      All
        (λ (k, s).
          (bytes : List ℕ) → directory.read s.filename ≡ ok (some bytes) → NotBoth frame_id s bytes)
        sessions

  Run-cons :
      (front rest : Map SessionMetadata) (k : Text) (s : SessionMetadata) (done mid next : Progress)
      → NoFile s.filename rest
      → (turn : Turn frame_id directory s done mid)
      → Run frame_id directory (front ++ ((k, turn.cut) ∷ [])) rest mid next
      → Run frame_id directory front ((k, s) ∷ rest) done next
  Run-cons front rest k s done mid next alone turn r = record {
    sessions = (k, turn.cut) ∷ r.sessions;
    repairs = turn.repairs ++ r.repairs;
    ids = turn.ids ++ r.ids;
    updated_is = r.updated_is ∙ append_assoc front ((k, turn.cut) ∷ []) r.sessions;
    repairs_are =
        r.repairs_are
        ∙ (ap (λ rs. rs ++ r.repairs) turn.repairs_are
            ∙ append_assoc done.repairs turn.repairs r.repairs);
    ids_are =
        r.ids_are ∙ (ap (λ is. is ++ r.ids) turn.ids_are ∙ append_assoc done.ids turn.ids r.ids);
    same_names = λ name. rw (turn.same_name, r.same_names name) refl;
    elsewhere = λ name others.
        All-append _ turn.repairs r.repairs
          (own-Elsewhere s.filename name turn.repairs turn.own (others.0))
          (r.elsewhere name (others.1));
    settled = λ read changed.
        let left : cuts s.filename (turn.repairs ++ r.repairs) turn.bytes
            ≡ cuts s.filename turn.repairs turn.bytes =
          cuts-append s.filename turn.repairs r.repairs turn.bytes
          ∙ cuts-Elsewhere s.filename r.repairs (cuts s.filename turn.repairs turn.bytes)
              (r.elsewhere s.filename alone) in
        let there : read turn.cut.filename ≡ ok (some (cuts s.filename turn.repairs turn.bytes)) =
          ap read turn.same_name ∙ (changed.0 turn.bytes turn.found ∙ ap (λ b. ok (some b)) left) in
        let later =
          Repaired-rest directory read s.filename turn.repairs r.repairs rest turn.own alone
            (changed.1) in
        (
          cuts s.filename turn.repairs turn.bytes,
          turn.ids,
          r.ids,
          there,
          turn.settled,
          refl,
          r.settled read later,
        );
  }

  pub check_sessions-Run :
      (front todo : Map SessionMetadata) (done next : Progress)
      → done.updated ≡ front ++ todo
      → Fresh front todo
      → KeysDistinct todo
      → OwnKeys todo
      → FilesDistinct todo
      → Once todo
      → check_sessions frame_id directory todo done ≡ ok next
      → Run frame_id directory front todo done next
  unfolding check_sessions
  check_sessions-Run front [] done next u f k o d once h =
      let same : done ≡ next = ground (arith, h) in
      subst (Run frame_id directory front [] done) same (record {
        sessions = [];
        repairs = [];
        ids = [];
        updated_is = u;
        repairs_are = sym (append-nil done.repairs);
        ids_are = sym (append-nil done.ids);
        same_names = λ name. refl;
        elsewhere = λ name others. tt;
        settled = λ read changed. refl;
      })
  check_sessions-Run front ((k, s) ∷ rest) done next u f kd o d once h =
      let (mid, e, h1) = bind-ok _ _ next h in
      let own : s.session ≡ k = o.0 in
      let g : get s.session done.updated ≡ some s =
        ap (λ m. get s.session m) u
        ∙ (ap (λ x. get x (front ++ ((k, s) ∷ rest))) own ∙ get-front k s front rest (f.0)) in
      let turn = check_session-Turn frame_id directory s done mid g (once.0) e in
      let replaced : insert s.session turn.cut done.updated ≡ front ++ ((k, turn.cut) ∷ rest) =
        ap (insert s.session turn.cut) u
        ∙ (ap (λ x. insert x turn.cut (front ++ ((k, s) ∷ rest))) own
            ∙ insert-front k s turn.cut front rest (f.0)) in
      let updated : mid.updated ≡ (front ++ ((k, turn.cut) ∷ [])) ++ rest =
        turn.updated_is ∙ (replaced ∙ sym (append_assoc front ((k, turn.cut) ∷ []) rest)) in
      Run-cons front rest k s done mid next (d.0) turn (
        check_sessions-Run (front ++ ((k, turn.cut) ∷ [])) rest mid next updated
          (Fresh-next front rest k turn.cut (f.1) (kd.0)) (kd.1) (o.1) (d.1) (once.1) h1)
