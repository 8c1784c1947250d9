-- ===== src/Tmux/Clients/Latest.antt =====
-- What the rows of `list-clients` come to: each session once, with its latest activity.
use solstone_tmux.Base.{
  ◌≡◌, refl, sym, ap, ap₂, ◌∙◌, subst, inl, inr, ◌⊎◌, true, false, List, [], ◌∷◌, Text, Option,
  none, some, ℤ, leb_ℤ, text_eq, text_eq_iff, if◌then◌else◌, All, Bool-cases, Option-cases, arith,
}
use solstone_tmux.Model.{ClientInfo}
use solstone_tmux.Tmux.Clients.{read_client_row, max_ℤ, note_client, client_rows}

unfoldable pub activity_of : Text → List ClientInfo → Option ℤ
activity_of session [] = none
activity_of session (c ∷ clients) =
    if text_eq c.session session then some c.activity else activity_of session clients

-- Some row has this session and this activity.
abbrev pub Reported : Text → ℤ → List Text → Type 0
Reported session activity [] = ⊥
Reported session activity (row ∷ rows) =
    (read_client_row row ≡ some (session, activity)) ⊎ Reported session activity rows

-- The client of the session is at least as recent.
abbrev pub HasSince : Text → ℤ → List ClientInfo → Type 0
HasSince session activity clients =
    (b : ℤ) × (activity_of session clients ≡ some b) × (leb_ℤ activity b ≡ true)

abbrev pub ClientsDistinct : List ClientInfo → Type 0
ClientsDistinct [] = Unit {0}
ClientsDistinct (c ∷ clients) = (activity_of c.session clients ≡ none) × ClientsDistinct clients

pub record IsLatest (rows : List Text) (clients : List ClientInfo) : Type 0 where
  pub distinct : ClientsDistinct clients
  pub covers :
      All
        (λ row. (s : Text) (a : ℤ) → read_client_row row ≡ some (s, a) → HasSince s a clients)
        rows
  pub reported : (s : Text) (b : ℤ) → activity_of s clients ≡ some b → Reported s b rows

leb_ℤ-refl : (a : ℤ) → leb_ℤ a a ≡ true
unfolding leb_ℤ
leb_ℤ-refl a = ground arith

leb_ℤ-trans : (a b c : ℤ) → leb_ℤ a b ≡ true → leb_ℤ b c ≡ true → leb_ℤ a c ≡ true
unfolding leb_ℤ
leb_ℤ-trans a b c h g = ground (arith, h, g)

max_ℤ-left : (a b : ℤ) → leb_ℤ a (max_ℤ a b) ≡ true
max_ℤ-left a b = elim (Bool-cases (leb_ℤ a b)) [ inl e ↦ rw e e | inr e ↦ rw e (leb_ℤ-refl a) ]

max_ℤ-right : (a b : ℤ) → leb_ℤ b (max_ℤ a b) ≡ true
unfolding leb_ℤ
max_ℤ-right a b = ground arith

abbrev joined : Option ℤ → ℤ → ℤ
joined none a = a
joined (some b) a = max_ℤ b a

activity_of-note :
    (s t : Text) (a : ℤ) (clients : List ClientInfo)
    → activity_of t (note_client s a clients)
      ≡ (if text_eq s t then some (joined (activity_of s clients) a) else activity_of t clients)
unfolding activity_of note_client
activity_of-note s t a [] = refl
activity_of-note s t a (c ∷ clients) = elim (Bool-cases (text_eq c.session s)) [
  | inl e ↦
      let same : c.session ≡ s = (text_eq_iff c.session s).0 e in
      rw (e, same) (elim (Bool-cases (text_eq s t)) [ inl f ↦ rw f refl | inr f ↦ rw f refl ])
  | inr e ↦ rw e (elim (Bool-cases (text_eq c.session t)) [
    | inr f ↦ rw f (activity_of-note s t a clients)
    | inl f ↦
        let other : text_eq s t ≡ false =
          ground (arith, e, f, text_eq_iff c.session t, text_eq_iff s t, text_eq_iff c.session s) in
        rw (f, other) refl
  ])
]

note_client-ClientsDistinct :
    (s : Text) (a : ℤ) (clients : List ClientInfo)
    → ClientsDistinct clients
    → ClientsDistinct (note_client s a clients)
unfolding note_client activity_of
note_client-ClientsDistinct s a [] h = (refl, tt)
note_client-ClientsDistinct s a (c ∷ clients) h = elim (Bool-cases (text_eq c.session s)) [
  | inl e ↦ rw e h
  | inr e ↦
      let differ : text_eq s c.session ≡ false =
        ground (arith, e, text_eq_iff s c.session, text_eq_iff c.session s) in
      let absent : activity_of c.session (note_client s a clients) ≡ none =
        activity_of-note s c.session a clients ∙ rw differ (h.0) in
      rw e (absent, note_client-ClientsDistinct s a clients (h.1))
]

-- A client keeps its place and is never set back.
HasSince-note :
    (s t : Text) (a b : ℤ) (clients : List ClientInfo)
    → HasSince t b clients
    → HasSince t b (note_client s a clients)
HasSince-note s t a b clients (c, e, h) = elim (Bool-cases (text_eq s t)) [
  | inr f ↦ (c, activity_of-note s t a clients ∙ rw f e, h)
  | inl f ↦
      let same : s ≡ t = (text_eq_iff s t).0 f in
      (
        max_ℤ c a,
        activity_of-note s t a clients ∙ rw (f, same, e) refl,
        leb_ℤ-trans b c (max_ℤ c a) h (max_ℤ-left c a),
      )
]

HasSince-new :
    (s : Text) (a : ℤ) (clients : List ClientInfo) → HasSince s a (note_client s a clients)
HasSince-new s a clients =
    let self = (text_eq_iff s s).1 refl in
    (
      joined (activity_of s clients) a,
      activity_of-note s s a clients ∙ rw self refl,
      elim (Option-cases (activity_of s clients)) [
        | inl e ↦ rw e (leb_ℤ-refl a)
        | inr (b, e) ↦ rw e (max_ℤ-right b a)
      ],
    )

abbrev after : List ClientInfo → List Text → List ClientInfo
after clients rows = (client_rows clients rows).0

after-dropped :
    (row : Text) (rows : List Text) (clients : List ClientInfo)
    → read_client_row row ≡ none
    → after clients (row ∷ rows) ≡ after clients rows
unfolding client_rows
after-dropped row rows clients e = rw (e, after, client_rows) refl

after-noted :
    (row : Text) (rows : List Text) (clients : List ClientInfo) (t : Text) (b : ℤ)
    → read_client_row row ≡ some (t, b)
    → after clients (row ∷ rows) ≡ after (note_client t b clients) rows
unfolding client_rows
after-noted row rows clients t b e = rw (e, after, client_rows) refl

client_rows-HasSince :
    (s : Text) (a : ℤ) (rows : List Text) (clients : List ClientInfo)
    → HasSince s a clients
    → HasSince s a (after clients rows)
unfolding client_rows
client_rows-HasSince s a [] clients h = h
client_rows-HasSince s a (row ∷ rows) clients h = elim (Option-cases (read_client_row row)) [
  | inl e ↦
      subst (HasSince s a) (sym (after-dropped row rows clients e))
        (client_rows-HasSince s a rows clients h)
  | inr ((t, b), e) ↦
      subst (HasSince s a) (sym (after-noted row rows clients t b e))
        (client_rows-HasSince s a rows (note_client t b clients) (HasSince-note t s b a clients h))
]

abbrev Covered : List Text → List ClientInfo → Type 0
Covered rows clients =
    All (λ row. (s : Text) (a : ℤ) → read_client_row row ≡ some (s, a) → HasSince s a clients) rows

client_rows-covers :
    (rows : List Text) (clients : List ClientInfo) → Covered rows (after clients rows)
client_rows-covers [] clients = tt
client_rows-covers (row ∷ rows) clients = elim (Option-cases (read_client_row row)) [
  | inl e ↦ (
    (λ s a h. ground (arith, h, e)),
    subst (Covered rows) (sym (after-dropped row rows clients e)) (client_rows-covers rows clients),
  )
  | inr ((t, b), e) ↦
      let next = sym (after-noted row rows clients t b e) in
      (
        (λ s a h.
            let name : t ≡ s = ground (arith, h, e) in
            let time : b ≡ a = ground (arith, h, e) in
            subst (HasSince s a) next (
              subst (λ x. HasSince s a (after x rows))
                (ap₂ (λ x y. note_client x y clients) (sym name) (sym time))
                (client_rows-HasSince s a rows (note_client s a clients)
                  (HasSince-new s a clients)))),
        subst (Covered rows) next (client_rows-covers rows (note_client t b clients)),
      )
]

joined-cases : (o : Option ℤ) (a b : ℤ) → joined o a ≡ b → (o ≡ some b) ⊎ (a ≡ b)
joined-cases none a b h = inr h
joined-cases (some c) a b h = elim (Bool-cases (leb_ℤ c a)) [
  | inl e ↦ inr (ground (arith, h, e))
  | inr e ↦ inl (ap some (ground (arith, h, e)))
]

client_rows-Reported :
    (rows : List Text) (clients : List ClientInfo) (s : Text) (b : ℤ)
    → activity_of s (client_rows clients rows).0 ≡ some b
    → (activity_of s clients ≡ some b) ⊎ Reported s b rows
unfolding client_rows
client_rows-Reported [] clients s b h = inl h
client_rows-Reported (row ∷ rows) clients s b h = elim (Option-cases (read_client_row row)) [
  | inl e ↦
      let k = ap (activity_of s) (sym (after-dropped row rows clients e)) ∙ h in
      elim (client_rows-Reported rows clients s b k) [ inl f ↦ inl f | inr f ↦ inr (inr f) ]
  | inr ((t, a), e) ↦
      let k = ap (activity_of s) (sym (after-noted row rows clients t a e)) ∙ h in
      elim (client_rows-Reported rows (note_client t a clients) s b k) [
        | inr f ↦ inr (inr f)
        | inl f ↦
            let noted = sym (activity_of-note t s a clients) ∙ f in
            elim (Bool-cases (text_eq t s)) [
              | inr d ↦ inl (ground (arith, noted, d))
              | inl d ↦
                  let name : t ≡ s = (text_eq_iff t s).0 d in
                  elim (joined-cases (activity_of t clients) a b (ground (arith, noted, d))) [
                    | inl g ↦ inl (ap (λ x. activity_of x clients) (sym name) ∙ g)
                    | inr g ↦ inr (inl (e ∙ ap some (ap₂ (λ x y. (x, y)) name g)))
                  ]
            ]
      ]
]

client_rows-ClientsDistinct :
    (rows : List Text) (clients : List ClientInfo)
    → ClientsDistinct clients
    → ClientsDistinct (client_rows clients rows).0
unfolding client_rows
client_rows-ClientsDistinct [] clients h = h
client_rows-ClientsDistinct (row ∷ rows) clients h = elim (Option-cases (read_client_row row)) [
  | inl e ↦
      subst ClientsDistinct (sym (after-dropped row rows clients e))
        (client_rows-ClientsDistinct rows clients h)
  | inr ((t, a), e) ↦ subst ClientsDistinct (sym (after-noted row rows clients t a e)) (
      client_rows-ClientsDistinct rows (note_client t a clients)
        (note_client-ClientsDistinct t a clients h))
]

-- From the rows of list-clients come clients with distinct sessions: every session of a well-formed
-- row has one, which is at least as recent as the row, and the activity of each is that of a
-- well-formed row of its session, so it is the latest.
pub client_rows-IsLatest : (rows : List Text) → IsLatest rows (client_rows [] rows).0
unfolding activity_of
client_rows-IsLatest rows = record {
  distinct = client_rows-ClientsDistinct rows [] tt;
  covers = client_rows-covers rows [];
  reported =
      λ s b h. elim (client_rows-Reported rows [] s b h) [ inl e ↦ ground (arith, e) | inr r ↦ r ];
}
