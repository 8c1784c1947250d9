-- ===== src/Segment/Sound.antt =====
-- The invariant of a segment's metadata, kept by every append.
use solstone_tmux.Base.{
  ℕ, ◌+◌, ◌^◌, ◌≤◌, ◌<◌, ◌≡◌, ◌≢◌, refl, ◌∙◌, subst, inl, inr, List, [], ◌∷◌, Text, none, Map, ok,
  get, insert, get-insert, All-insert, All, All-mono, length, ltb, IsScalar, arith, text_eq,
  text_eq_iff, Bool-cases,
}
use solstone_tmux.Name.{DerivedName, derive_component, session_filename}
use solstone_tmux.Storage.{SegmentMetadata, SessionMetadata, creating, schema_version}
use solstone_tmux.Segment.Length.{IsNamed, lengthened, lengthened-IsNamed}
use solstone_tmux.Segment.Append.{with_frame, offset_of}

-- What the metadata says of one session: its own file, and a last frame among those counted.
pub record IsEntry (last : ℕ) (entry : Text × SessionMetadata) : Type 0 where
  pub scalar : All IsScalar entry.0
  pub session : entry.1.session ≡ entry.0
  pub derived : DerivedName
  pub derives : derive_component entry.0 ≡ ok derived
  pub filename : entry.1.filename ≡ session_filename derived
  pub nonempty : 0 < entry.1.durable_offset
  pub numbered : 0 < entry.1.last_frame_id
  pub counted : entry.1.last_frame_id ≤ last

abbrev pub KeysDistinct {ℓ} : {V : Type ℓ} → Map V → Type ℓ
KeysDistinct [] = Unit
KeysDistinct ((k, v) ∷ m) = (get k m ≡ none) × KeysDistinct m

pub record IsSound (m : SegmentMetadata) (stem : Text) : Type 0 where
  pub version : m.schema_version ≡ schema_version
  pub created : m.lifecycle ≢ creating
  pub counts : m.durable_frame_count ≡ m.last_durable_frame_id
  pub has : m.has_durable_frames ≡ ltb 0 m.durable_frame_count
  pub bounded : m.last_durable_frame_id < 2 ^ 64
  pub entries : All (IsEntry m.last_durable_frame_id) m.sessions
  pub distinct : KeysDistinct m.sessions
  pub named : IsNamed m stem

insert-KeysDistinct {ℓ} :
    {V : Type ℓ} (key : Text) (value : V) (m : Map V)
    → KeysDistinct m
    → KeysDistinct (insert key value m)
unfolding insert get
insert-KeysDistinct key value [] h = (refl, tt)
insert-KeysDistinct key value ((k, v) ∷ m) h = elim (Bool-cases (text_eq k key)) [
  | inl e ↦ rw e (subst (λ t. get t m ≡ none) ((text_eq_iff k key).0 e) h.0, h.1)
  | inr e ↦ rw e (
    get-insert key k value m ∙ ground (arith, h.0, text_eq_iff k key, text_eq_iff key k),
    insert-KeysDistinct key value m h.1,
  )
]

IsEntry-mono :
    (last later : ℕ)
    → last ≤ later
    → (e : Text × SessionMetadata) → IsEntry last e
    → IsEntry later e
IsEntry-mono last later h e it = record {
  scalar = it.scalar;
  session = it.session;
  derived = it.derived;
  derives = it.derives;
  filename = it.filename;
  nonempty = it.nonempty;
  numbered = it.numbered;
  counted = omega (arith, it.counted);
}

pub with_frame-IsSound :
    (m : SegmentMetadata) (stem session : Text) (derived : DerivedName) (elapsed interval : ℕ)
    (bytes : List ℕ)
    → IsSound m stem
    → interval < 2 ^ 64
    → All IsScalar session
    → derive_component session ≡ ok derived
    → m.last_durable_frame_id + 1 < 2 ^ 64
    → 0 < length bytes
    → offset_of (get session m.sessions) + length bytes < 2 ^ 64
    → IsSound
        (with_frame
          (lengthened m stem elapsed interval)
          (m.last_durable_frame_id + 1)
          session
          (session_filename derived)
          (offset_of (get session m.sessions))
          bytes)
        stem
unfolding with_frame
with_frame-IsSound m stem session derived elapsed interval bytes s short scalar derives room
      some_bytes fits =
    let frame_id = m.last_durable_frame_id + 1 in
    let names = lengthened-IsNamed m stem elapsed interval short s.named.incomplete in
    record {
      version = s.version;
      created = s.created;
      counts = ground (arith, s.counts);
      has = ground (arith, s.counts);
      bounded = room;
      entries =
          All-insert (IsEntry frame_id) session _ m.sessions
            (record {
              scalar = scalar;
              session = refl;
              derived = derived;
              derives = derives;
              filename = refl;
              nonempty = ground arith;
              numbered = omega arith;
              counted = omega arith;
            })
            (All-mono (IsEntry m.last_durable_frame_id) (IsEntry frame_id)
              (IsEntry-mono m.last_durable_frame_id frame_id (omega arith)) m.sessions s.entries);
      distinct = insert-KeysDistinct session _ m.sessions s.distinct;
      named = record { incomplete = names.incomplete; finalized = names.finalized };
    }
