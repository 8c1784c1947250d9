-- ===== src/Name/Tests.antt =====
-- Runs of native/solstone-tmux/src/name.rs, and the theorems about it at concrete names.
use solstone_tmux.Base.{
  [], ◌≡◌, refl, ◌↔◌, ◌≤◌, ◌≢◌, codes, ok, err, some, true, text_eq, contains, split, strip_prefix,
  strip_suffix, is_ascii_lowercase, is_ascii_digit, is_ascii_alphanumeric, hex_encode, bytes,
  encode, byte_length, arith,
}
use solstone_tmux.Name.{
  DerivedName, derive_component, session_filename, traversal, canonical, max_component_bytes,
}
use solstone_tmux.Name.Canonical.{derive_component-fixed}
use solstone_tmux.Name.Charset.{IsSafe, derive_component-IsSafe}
use solstone_tmux.Name.Injective.{derive_component-injective}
use solstone_tmux.Name.Exact.{exact_component, exact_component_iff}
use solstone_tmux.Name.Files.{
  valid_capture_filename, valid_activity_filename, valid_capture_filename_iff,
}

kept : derive_component (codes "work-1") ≡ ok (record { as_str = codes "work-1" })
unfolding derive_component text_eq contains split is_ascii_lowercase is_ascii_digit
    is_ascii_alphanumeric hex_encode bytes encode byte_length
kept = refl

escaped : derive_component (codes "Wo rk") ≡ ok (record { as_str = codes "Wo_rk~576f20726b" })
unfolding derive_component text_eq contains split is_ascii_lowercase is_ascii_digit
    is_ascii_alphanumeric hex_encode bytes encode byte_length
escaped = refl

refused : derive_component (codes "a/../b") ≡ err traversal
unfolding derive_component text_eq contains split is_ascii_lowercase is_ascii_digit
    is_ascii_alphanumeric hex_encode bytes encode byte_length
refused = refl

activity_by_id :
    valid_activity_filename (codes "120000_ab_desktop_activity.jsonl") (codes "120000") ≡ true
unfolding valid_activity_filename derive_component text_eq contains split strip_prefix strip_suffix
    is_ascii_lowercase is_ascii_digit is_ascii_alphanumeric hex_encode bytes encode byte_length
activity_by_id = refl

abbrev work : DerivedName
work = record { as_str = codes "work-1" }

abbrev escaped_name : DerivedName
escaped_name = record { as_str = codes "Wo_rk~576f20726b" }

derive_component-IsSafe_example : IsSafe escaped_name
derive_component-IsSafe_example =
    derive_component-IsSafe (codes "Wo rk") escaped_name (omega arith) escaped

derive_component-injective_example : codes "Wo rk" ≡ codes "Wo rk"
derive_component-injective_example =
    derive_component-injective (codes "Wo rk") (codes "Wo rk") escaped_name (omega arith)
      (omega arith) escaped escaped

derive_component-fixed_example :
    (escaped_name.as_str ≡ codes "Wo rk") ↔ (canonical (codes "Wo rk") ≡ true)
derive_component-fixed_example = derive_component-fixed (codes "Wo rk") escaped_name escaped

exact_component_iff_example : (exact_component (codes "work-1") ≡ some work) ↔ (
    (work.as_str ≡ codes "work-1")
    × (canonical (codes "work-1") ≡ true)
    × (codes "work-1" ≢ [])
    × (byte_length (codes "work-1") ≤ max_component_bytes))
exact_component_iff_example = exact_component_iff (codes "work-1") work

valid_capture_filename_iff_example :
    (valid_capture_filename (session_filename escaped_name) ≡ true)
    ↔ ((canonical (codes "Wo rk") ≡ true) × (byte_length (codes "Wo rk") ≤ 182))
valid_capture_filename_iff_example = valid_capture_filename_iff (codes "Wo rk") escaped_name escaped
