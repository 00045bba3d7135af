-- ===== src/Registry.antt =====
-- internal/registry/auth.go and `validateReason` of dispute.go: principals, their scopes, and the
-- checks that ownership and disputes share. Texts are sequences of characters; instants are numbers
-- with 0 for Go's zero time. The checks of ids that regular expressions make, and the text functions
-- of Go's library, are the parameter `Checks`.
pub mod Ownership
pub mod Control
pub mod Dispute
pub mod Ingest
pub mod Upload
pub mod Purge
pub mod Erasure
pub mod Store
pub mod Sift
pub mod Pages
pub mod Memory
pub mod Archive
pub mod StoreTests
pub mod Review
pub mod Verdict
pub mod Restoration
pub mod Tests
use agentapi_doctor.Common.{
  ℕ, String, Bool, true, false, not, ◌&&◌, ◌||◌, List, [], ◌∷◌, ◌++◌, Option, none, some, ◌==◌,
  string_eq, eqb, ltb, any, code_points, if◌then◌else◌, Result, ok, err,
}

pub data Error : Type 0 where
  invalid unauthenticated forbidden not_owner expired digest_mismatch conflict invalid_transition :
      Error

pub record Checks : Type 0 where
  pub is_instance : String → Bool
  pub is_digest : String → Bool
  pub is_subject : String → Bool
  -- `strings.TrimSpace`, `len` and `unicode.IsControl`.
  pub trim_space : String → String
  pub byte_length : String → ℕ
  pub is_control : ℕ → Bool

-- Scopes are texts.
abbrev pub valid_scopes : List String
valid_scopes =
    "observation:prepare" ∷ "observation:commit" ∷ "ownership:manage" ∷ "dispute:create"
    ∷ "runner:submit" ∷ "moderation:review" ∷ "registry:admin" ∷ []

unfoldable pub contains : String → List String → Bool
contains s [] = false
contains s (x ∷ xs) = x == s || contains s xs

pub record Principal : Type 0 where
  pub id : String
  pub scopes : List String

unfoldable pub has_scope : Principal → String → Bool
has_scope p s = contains s p.scopes

module _ (k : Checks) where
  unfoldable pub is_principal : String → Bool
  is_principal s =
      not (s == "")
      && s == k.trim_space s
      && not (ltb 512 (k.byte_length s))
      && not (any k.is_control (code_points s))

  -- A newline and a tab are allowed.
  unfoldable pub is_reason : String → Bool
  is_reason s =
      not (s == "")
      && s == k.trim_space s
      && not (ltb 4096 (k.byte_length s))
      && not (any (λ c. k.is_control c && not (eqb c 10) && not (eqb c 9)) (code_points s))

  -- The loop of `NewPrincipal`.
  unfoldable pub add_scopes : Principal → List String → Result Error Principal
  add_scopes p [] = ok p
  add_scopes p (s ∷ ss) =
      let rest = add_scopes (record p { scopes = p.scopes ++ s ∷ [] }) ss in
      if not (contains s valid_scopes)
      then err invalid
      else if has_scope p s
      then err invalid
      else rest

  unfoldable pub new_principal : String → List String → Result Error Principal
  new_principal id scopes =
      if not (is_principal id)
      then err invalid
      else add_scopes (record { id = id; scopes = [] }) scopes

  unfoldable pub require_scope : Principal → String → Option Error
  require_scope p s =
      if not (is_principal p.id)
      then some unauthenticated
      else if not (contains s valid_scopes)
      then some forbidden
      else if not (has_scope p s)
      then some forbidden
      else none

  unfoldable pub authorize_owned : Principal → String → String → Option Error
  authorize_owned p owner s = elim (require_scope p s) [
    | some e ↦ some e
    | none ↦ if not (p.id == owner) then some not_owner else none
  ]
