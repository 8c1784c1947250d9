-- ===== src/Name.antt =====
-- native/solstone-tmux/src/name.rs: the one path component that stands for an identity (a tmux
-- session, a stream, a recovery stem). A `str` is the list of its code points.
pub mod Charset
pub mod Canonical
pub mod Injective
pub mod Exact
pub mod Files
mod Tests
use solstone_tmux.Base.{
  ℕ, ◌+◌, ◌<◌, Bool, true, false, not, ◌&&◌, ◌||◌, List, [], ◌∷◌, ◌++◌, map, Text, codes, Result,
  ok, err, ◌>>=◌, ◌>>◌, refuse_if, ◌==◌, ltb, any, all, split, contains, text_eq, bytes,
  byte_length, if◌then◌else◌, is_ascii_lowercase, is_ascii_digit, is_ascii_alphanumeric, hex_encode,
  strip_prefix, strip_suffix, Option, none, some,
}

abbrev pub max_component_bytes : ℕ
max_component_bytes = 200

pub record DerivedName : Type 0 where
  pub as_str : Text

pub data NameError : Type 0 where
  empty contains_nul absolute traversal : NameError
  too_long : ℕ → ℕ → NameError
  escapes_parent : NameError

unfoldable pub session_filename : DerivedName → Text
session_filename name = codes "tmux_" ++ (name.as_str ++ codes "_screen.jsonl")

-- `raw.is_empty()`
unfoldable pub is_empty : Text → Bool
is_empty [] = true
is_empty (c ∷ s) = false

-- `Path::new(raw).is_absolute()`, on Unix
unfoldable pub is_absolute : Text → Bool
is_absolute [] = false
is_absolute (c ∷ s) = c == b'/'

pub data Component : Type 0 where
  root_dir parent_dir : Component
  normal : Text → Component

-- `Path::components()`: empty parts and `.` give none.
unfoldable pub part_components : List Text → List Component
part_components [] = []
part_components (part ∷ parts) =
    let rest = part_components parts in
    if text_eq part [] || text_eq part (codes ".")
    then rest
    else if text_eq part (codes "..")
    then parent_dir ∷ rest
    else normal part ∷ rest

unfoldable pub components : Text → List Component
unfolding is_absolute part_components
components raw =
    if is_absolute raw
    then root_dir ∷ part_components (split b'/' raw)
    else part_components (split b'/' raw)

unfoldable pub escapes : Component → Bool
escapes root_dir = true
escapes parent_dir = true
escapes (normal part) = false

unfoldable pub has_traversal : Text → Bool
unfolding components escapes
has_traversal raw =
    any (λ part. text_eq part (codes ".") || text_eq part (codes "..")) (split b'/' raw)
    || any escapes (components raw)

unfoldable pub canonical_first : ℕ → Bool
canonical_first byte = is_ascii_lowercase byte || is_ascii_digit byte

unfoldable pub canonical_later : ℕ → Bool
canonical_later byte =
    is_ascii_lowercase byte
    || (is_ascii_digit byte || (byte == b'.' || (byte == b'_' || byte == b'-')))

unfoldable pub canonical_bytes : List ℕ → Bool
unfolding canonical_first canonical_later
canonical_bytes [] = true
canonical_bytes (byte ∷ rest) = canonical_first byte && all canonical_later rest

unfoldable pub canonical : Text → Bool
unfolding canonical_bytes
canonical raw = canonical_bytes (bytes raw)

-- The character that stands for one of the identity in the component.
unfoldable pub sanitize : ℕ → ℕ
sanitize c = if is_ascii_alphanumeric c || (c == b'.' || (c == b'_' || c == b'-')) then c else b'_'

unfoldable pub component : Text → Text
unfolding canonical sanitize
component raw =
    if canonical raw then map sanitize raw else map sanitize raw ++ (b'~' ∷ hex_encode (bytes raw))

unfoldable pub derive_component : Text → Result NameError DerivedName
unfolding is_empty is_absolute has_traversal component
derive_component raw = do
  refuse_if (is_empty raw) empty
  refuse_if (contains 0 raw) contains_nul
  refuse_if (is_absolute raw) absolute
  refuse_if (has_traversal raw) traversal
  let derived = component raw
  refuse_if (ltb max_component_bytes (byte_length derived))
      (too_long (byte_length derived) max_component_bytes)
  ok (record { as_str = derived })
