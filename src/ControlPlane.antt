-- ===== src/ControlPlane.antt =====
-- vad/control_plane: the records that the server keeps. A time is a number of microseconds of UTC.
pub mod Events
pub mod Leases
pub mod WorkItems
pub mod Lifecycle
use verified_agentic_develop.Prelude.{
  ℕ, String, Bool, true, false, not, ◌&&◌, Option, none, some, leb, text_length, has_separator,
  has_control, is_digest,
}

-- `Field(min_length=1, max_length=n)` with the separators refused
unfoldable pub is_identifier : ℕ → String → Bool
is_identifier n s = leb 1 (text_length s) && leb (text_length s) n && not (has_separator s)

unfoldable pub is_optional_identifier : ℕ → Option String → Bool
is_optional_identifier n none = true
is_optional_identifier n (some s) = leb (text_length s) n && not (has_separator s)

-- `Field(max_length=n)` with the control characters refused
unfoldable pub is_optional_text : ℕ → Option String → Bool
is_optional_text n none = true
is_optional_text n (some s) = leb (text_length s) n && not (has_control s)

-- `Field(pattern=r"^[a-f0-9]{64}$")`
unfoldable pub is_optional_digest : Option String → Bool
is_optional_digest none = true
is_optional_digest (some s) = is_digest s
