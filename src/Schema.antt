-- ===== src/Schema.antt =====
-- pkg/schema/digest.go: the syntax of digests, a regular expression there, on the characters of a text.
use agentapi_doctor.Common.{
  ℕ, String, Bool, true, false, ◌&&◌, ◌||◌, List, [], ◌∷◌, Option, none, some, eqb, leb, length,
  all, drop, code_points, if◌then◌else◌,
}

abbrev has_prefix : List ℕ → List ℕ → Bool
has_prefix [] text = true
has_prefix (c ∷ cs) [] = false
has_prefix (c ∷ cs) (d ∷ ds) = eqb c d && has_prefix cs ds

-- `[0-9a-f]`.
abbrev is_lower_hex : ℕ → Bool
is_lower_hex c = (leb b'0' c && leb c b'9') || (leb b'a' c && leb c b'f')

-- `digestPattern`: `sha256:` and 64 digits, and nothing else.
unfoldable pub is_digest_text : List ℕ → Bool
is_digest_text text =
    has_prefix (code_points "sha256:") text
    && eqb (length (drop 7 text)) 64
    && all is_lower_hex (drop 7 text)

unfoldable pub parse_digest : String → Option String
unfolding is_digest_text
parse_digest value = if is_digest_text (code_points value) then some value else none
