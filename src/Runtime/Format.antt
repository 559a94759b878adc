-- ===== src/Runtime/Format.antt =====
-- sdk/go/runtime/validate.go: opaque handles, digests, capabilities, and the field errors.
-- A text is walked as its code points. The three regular expressions are matchers by hand.
-- Go counts bytes where this file counts code points; the two agree on every text that a
-- regular expression of this file accepts, as those are ASCII.
use Prim.Native.Char.{code}
use Prim.Native.String.{len}
use agentnexus.Base.{
  ℕ, suc, String, Bool, true, false, ◌&&◌, ◌||◌, ◌==◌, ltb, leb, ◌=ₛ◌, if◌then◌else◌, List, Option,
  none, some,
}
use agentnexus.Errors.{Err, plain}

abbrev Codes : Type 0
Codes = List ℕ

abbrev pub codes : String → List ℕ
codes String.[] = List.[]
codes (String.◌∷◌ c s) = List.◌∷◌ (code c) (codes s)

abbrev pub between : ℕ → ℕ → ℕ → Bool
between lo hi c = leb lo c && leb c hi

-- [a-z], [0-9], and the class of the handle's body
is_lower : ℕ → Bool
is_lower c = between b'a' b'z' c

unfoldable pub is_digit : ℕ → Bool
is_digit c = between b'0' b'9' c

is_handle_char : ℕ → Bool
unfolding is_lower is_digit
is_handle_char c = is_lower c || between b'A' b'Z' c || is_digit c || c == b'_' || c == b'-'

unfoldable pub is_hex : ℕ → Bool
unfolding is_digit
is_hex c = is_digit c || between b'a' b'f' c

unfoldable pub all_chars : (ℕ → Bool) → List ℕ → Bool
all_chars p List.[] = true
all_chars p (List.◌∷◌ c s) = p c && all_chars p s

unfoldable pub count : List ℕ → ℕ
count List.[] = 0
count (List.◌∷◌ c s) = suc (count s)

-- `strings.CutPrefix`: the rest of the text after the prefix
unfoldable pub strip : List ℕ → List ℕ → Option (List ℕ)
strip List.[] s = some s
strip (List.◌∷◌ p ps) List.[] = none
strip (List.◌∷◌ p ps) (List.◌∷◌ c s) = if p == c then strip ps s else none

-- ^[A-Za-z0-9_-]{16,128}$
unfoldable pub handle_body : List ℕ → Bool
unfolding is_handle_char all_chars count
handle_body s = leb 16 (count s) && leb (count s) 128 && all_chars is_handle_char s

abbrev body_ok : Option (List ℕ) → Bool
body_ok none = false
body_ok (some rest) = handle_body rest

-- `ValidateHandle` accepts
unfoldable pub is_handle : String → String → Bool
unfolding strip handle_body
is_handle handle prefix = body_ok (strip (codes prefix) (codes handle))

unfoldable pub validate_handle : String → String → Option Err
unfolding is_handle
validate_handle handle prefix =
    if is_handle handle prefix then none else some (plain "not an opaque handle")

-- ^sha256:[0-9a-f]{64}$
abbrev digest_ok : Option (List ℕ) → Bool
digest_ok none = false
digest_ok (some rest) = count rest == 64 && all_chars is_hex rest

unfoldable pub validate_sha256_ref : String → Option Err
unfolding strip is_hex all_chars count
validate_sha256_ref value =
    if digest_ok (strip (codes "sha256:") (codes value)) then none else some (plain "not a digest")

-- ^[a-z][a-z0-9_]*(\.[a-z][a-z0-9_]*)+$ as an automaton: at the start of a segment, inside the
-- first segment, or inside a later one
pub data Mode : Type 0 where
  start : Bool → Mode
  inside : Bool → Mode

abbrev segment_char : ℕ → Bool
segment_char c = is_lower c || is_digit c || c == b'_'

-- the flag says that a dot has been read
capability_from : Mode → List ℕ → Bool
unfolding is_lower is_digit
capability_from (start dotted) List.[] = false
capability_from (inside dotted) List.[] = dotted
capability_from (start dotted) (List.◌∷◌ c s) =
    let rest = capability_from (inside dotted) s in if is_lower c then rest else false
capability_from (inside dotted) (List.◌∷◌ c s) =
    let later = capability_from (start true) s in
    let more = capability_from (inside dotted) s in
    if c == b'.' then later else if segment_char c then more else false

unfoldable pub validate_capability : String → Option Err
unfolding capability_from
validate_capability capability =
    if capability =ₛ ""
    then some (plain "capability: is required")
    else if ltb 256 (len capability)
    then some (plain "capability: must be at most 256 bytes")
    else if capability_from (start false) (codes capability)
    then none
    else some (plain "capability: is not a namespaced business-semantic capability")

unfoldable pub require_non_empty : String → String → Option Err
require_non_empty field value = if value =ₛ "" then some (plain field) else none
