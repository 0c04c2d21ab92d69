-- ===== src/AgentToken/Headers.antt =====
-- `token_from_headers` of src/agent_token.rs. A header is its text, where it is there and is text.
use yunova.Base.{
  ℕ, ◌≡◌, Bool, true, false, Option, none, some, List, [], ◌∷◌, String, if◌then◌else◌, arith,
}
use yunova.Base.Text.{codes, trim, strip_prefix}
use yunova.AgentToken.{token_prefix}

abbrev pub Headers : Type 0
Headers = String → Option (List ℕ)

unfoldable pub has_prefix : List ℕ → Bool
has_prefix t = elim (strip_prefix (codes token_prefix) t) [ none ↦ false | some rest ↦ true ]

unfoldable pub bearer_of : List ℕ → Option (List ℕ)
bearer_of v = elim (strip_prefix (codes "Bearer ") v) [
  | some t ↦ some (trim t)
  | none ↦ elim (strip_prefix (codes "bearer ") v) [ none ↦ none | some t ↦ some (trim t) ]
]

abbrev pub bearer : Option (List ℕ) → Option (List ℕ)
bearer none = none
bearer (some v) = bearer_of v

abbrev pub trimmed : Option (List ℕ) → Option (List ℕ)
trimmed none = none
trimmed (some v) = some (trim v)

-- `flatten().find(…)`
unfoldable pub first_token : List (Option (List ℕ)) → Option (List ℕ)
first_token [] = none
first_token (none ∷ ts) = first_token ts
first_token (some t ∷ ts) = if has_prefix t then some t else first_token ts

unfoldable pub token_from_headers : Headers → Option (List ℕ)
token_from_headers headers = first_token (
    bearer (headers "authorization")
    ∷ trimmed (headers "x-api-key")
    ∷ trimmed (headers "x-goog-api-key")
    ∷ [])

first_token_prefixed :
    (ts : List (Option (List ℕ))) (t : List ℕ) → first_token ts ≡ some t → has_prefix t ≡ true
unfolding first_token
first_token_prefixed [] t e = absurd (ground arith)
first_token_prefixed (none ∷ ts) t e = first_token_prefixed ts t e
first_token_prefixed (some s ∷ ts) t e = ground (arith, first_token_prefixed ts t)

-- Whatever headers a request has, a token found in them has the prefix of an agent token.
pub token_from_headers_prefixed :
    (headers : Headers) (t : List ℕ) → token_from_headers headers ≡ some t → has_prefix t ≡ true
unfolding token_from_headers
token_from_headers_prefixed headers t e = first_token_prefixed _ t e
