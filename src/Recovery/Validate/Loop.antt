-- ===== src/Recovery/Validate/Loop.antt =====
-- One turn of the loop of `validate_files`: what it finds of a session, and what is left of the
-- session's file once it is cut back.
use solstone_tmux.Base.{
  ℕ, zero, suc, ◌-◌, ◌≤◌, ◌≡◌, refl, ap, inl, inr, true, false, List, [], ◌∷◌, ◌++◌, Text, Option,
  some, Map, ok, get, insert, length, take, append-nil, ltb, text_eq, text_eq_iff, if◌then◌else◌,
  All, Bool-cases, arith,
}
use solstone_tmux.Storage.{SessionMetadata}
use solstone_tmux.Storage.Disk.{set_len}
use solstone_tmux.Recovery.Prefix.{stop_at, parse_recorded_prefix, last_id}
use solstone_tmux.Recovery.Validate.{Directory, FileRepair, Progress, at_offset, or_zero}

-- What a file holds after the repairs that name it.
abbrev pub cuts : Text → List FileRepair → List ℕ → List ℕ
cuts name [] bytes = bytes
cuts name (r ∷ rest) bytes =
    cuts name rest (if text_eq r.filename name then set_len r.offset bytes else bytes)

pub cuts-append :
    (name : Text) (rs more : List FileRepair) (bytes : List ℕ)
    → cuts name (rs ++ more) bytes ≡ cuts name more (cuts name rs bytes)
cuts-append name [] more bytes = refl
cuts-append name (r ∷ rs) more bytes = cuts-append name rs more _

-- The repairs are all of other files.
abbrev pub Elsewhere : Text → List FileRepair → Type 0
Elsewhere name rs = All (λ r. text_eq r.filename name ≡ false) rs

pub cuts-Elsewhere :
    (name : Text) (rs : List FileRepair) (bytes : List ℕ)
    → Elsewhere name rs
    → cuts name rs bytes ≡ bytes
cuts-Elsewhere name [] bytes h = refl
cuts-Elsewhere name (r ∷ rs) bytes h = rw (h.0) (cuts-Elsewhere name rs bytes (h.1))

pub cuts_one :
    (name : Text) (offset : ℕ) (bytes : List ℕ)
    → cuts name (at_offset name offset ∷ []) bytes ≡ set_len offset bytes
cuts_one name offset bytes = rw ((text_eq_iff name name).1 refl) refl

pub length-take : (n : ℕ) (bytes : List ℕ) → n ≤ length bytes → length (take n bytes) ≡ n
length-take zero bytes h = refl
length-take (suc n) [] h = absurd (omega arith)
length-take (suc n) (b ∷ bytes) h = omega (arith, length-take n bytes (omega arith))

pub take_all : (n : ℕ) (bytes : List ℕ) → length bytes ≡ n → take n bytes ≡ bytes
take_all zero [] h = refl
take_all zero (b ∷ bytes) h = absurd (omega arith)
take_all (suc n) [] h = refl
take_all (suc n) (b ∷ bytes) h = ap (λ s. b ∷ s) (take_all n bytes (omega arith))

pub take-take : (m n : ℕ) (bytes : List ℕ) → m ≤ n → take m (take n bytes) ≡ take m bytes
take-take zero n bytes h = refl
take-take (suc m) zero bytes h = absurd (omega arith)
take-take (suc m) (suc n) [] h = refl
take-take (suc m) (suc n) (b ∷ bytes) h = ap (λ s. b ∷ s) (take-take m n bytes (omega arith))

pub set_len-take : (n : ℕ) (bytes : List ℕ) → n ≤ length bytes → set_len n bytes ≡ take n bytes
unfolding set_len
set_len-take n bytes h =
    let e : n - length bytes ≡ 0 = omega arith in rw (e, append-nil (take n bytes)) refl

pub insert-same :
    (key : Text) (s : SessionMetadata) (m : Map SessionMetadata)
    → get key m ≡ some s
    → insert key s m ≡ m
unfolding get insert
insert-same key s [] h = ground (arith, h)
insert-same key s ((k, v) ∷ m) h = elim (Bool-cases (text_eq k key)) [
  | inl e ↦
      let same : v ≡ s = ground (arith, h, e) in
      let name : k ≡ key = (text_eq_iff k key).0 e in rw (e, same, name) refl
  | inr e ↦ rw e (ap (λ rest. (k, v) ∷ rest) (insert-same key s m (ground (arith, h, e))))
]

-- The file is exactly as long as the metadata says, and parses into whole frames with these ids.
pub record IsSettled (frame_id : List ℕ → Option ℕ) (file : List ℕ) (s : SessionMetadata)
    (ids : List ℕ) : Type 0 where
  pub size : length file ≡ s.durable_offset
  pub parsed : parse_recorded_prefix frame_id file ≡ stop_at s.durable_offset ids false
  pub last : or_zero (last_id ids) ≡ s.last_frame_id

-- No file has its torn recorded part followed by more bytes.
abbrev pub NotBoth : (List ℕ → Option ℕ) → SessionMetadata → List ℕ → Type 0
NotBoth frame_id s bytes =
    (parse_recorded_prefix frame_id (take s.durable_offset bytes)).torn ≡ true
    → ltb s.durable_offset (length bytes) ≡ false

pub record Turn (frame_id : List ℕ → Option ℕ) (directory : Directory) (s : SessionMetadata)
    (done next : Progress) : Type 0 where
  pub bytes : List ℕ
  pub found : directory.read s.filename ≡ ok (some bytes)
  pub cut : SessionMetadata
  pub repairs : List FileRepair
  pub ids : List ℕ
  pub updated_is : next.updated ≡ insert s.session cut done.updated
  pub repairs_are : next.repairs ≡ done.repairs ++ repairs
  pub ids_are : next.ids ≡ done.ids ++ ids
  pub same_name : cut.filename ≡ s.filename
  pub same_session : cut.session ≡ s.session
  pub own : All (λ r. r.filename ≡ s.filename) repairs
  pub settled : IsSettled frame_id (cuts s.filename repairs bytes) cut ids
