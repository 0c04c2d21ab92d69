-- ===== src/AgentToken/Writes.antt =====
-- What the writes of src/agent_token.rs leave alone: whatever does not depend on the rows of tokens.
use yunova.Base.{ℕ, Option, List, String, inl, inr, Option-cases}
use yunova.Schema.{Tables, AgentToken}
use yunova.Db.{Env}
use yunova.Db.Rules.{IsStable, Keeps, Lands, pure-Keeps, then-Keeps, attempt-Keeps, statement-Keeps}
use yunova.AgentToken.{Clock, find_token, insert_token, mint, revoke_by_plaintext, put_tokens}

module _ (clock : Clock) (P : Tables → Type 0)
    (apart : (rs : List AgentToken) (t : Tables) → P t → P (put_tokens rs t)) where
  insert_token-Lands : (r : AgentToken) (t : Tables) → P t → Lands P (insert_token clock r t)
  unfolding insert_token
  insert_token-Lands r t h = elim (Option-cases (find_token r.token_hash t.agent_tokens)) [
    | inl new ↦ rw (new, Lands) (apart _ t h)
    | inr (old, taken) ↦ rw (taken, Lands) tt
  ]

  pub mint-Keeps :
      {e : Env} (id : ℕ) (random : String) (uid : ℕ) (name : List ℕ) (ttl : Option ℕ) (now : ℕ)
      → IsStable P e
      → Keeps P e (mint clock id random uid name ttl now)
  unfolding mint
  mint-Keeps id random uid name ttl now s =
      then-Keeps (statement-Keeps _ s (insert_token-Lands _)) (pure-Keeps _)

  pub revoke_by_plaintext-Keeps :
      {e : Env} (token : String) → IsStable P e → Keeps P e (revoke_by_plaintext clock token)
  unfolding revoke_by_plaintext
  revoke_by_plaintext-Keeps token s =
      then-Keeps (attempt-Keeps (statement-Keeps _ s (λ t h. apart _ t h))) (pure-Keeps tt)
