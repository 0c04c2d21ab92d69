-- ===== src/Db/Types.antt =====
-- The database as the code sees it (sqlx, src/db.rs): a function that returns
-- `Result<_, sqlx::Error>` or that awaits the pool is an action over one connection. Each SQL
-- statement is atomic. The environment decides which statements fail and what other requests do to
-- the tables before each statement, so a theorem over every environment holds under every
-- interleaving at the grain of a statement.
use yunova.Base.{ℕ, suc, Bool, true, false, Option, none, some}
use yunova.Schema.{Tables}

pub record Env : Type 0 where
  -- statement number `n` fails, and changes nothing
  pub fails : ℕ → Bool
  -- what other requests do between statement `n - 1` and statement `n`
  pub others : ℕ → Tables → Tables

pub record Conn : Type 0 where
  pub tables : Tables
  -- the statements issued so far
  pub tick : ℕ

-- `none` is `Err(sqlx::Error)`; the code only prints the error.
abbrev pub Action : Type 0 → Type 0
Action A = Env → Conn → Option A × Conn

module _ {A : Type 0} where
  unfoldable pub pure : A → Action A
  pure a e c = (some a, c)

  unfoldable pub fail : Action A
  fail e c = (none, c)

  -- The answer of a statement and the tables after it, `none` being an error of its own.
  abbrev pub answer : Bool → Option (A × Tables) → Tables → ℕ → Option A × Conn
  answer true r t n = (none, record { tables = t; tick = n })
  answer false none t n = (none, record { tables = t; tick = n })
  answer false (some (a, t')) t n = (some a, record { tables = t'; tick = n })

  unfoldable pub statement : (Tables → Option (A × Tables)) → Action A
  statement f e c = let t = e.others c.tick c.tables in answer (e.fails c.tick) (f t) t (suc c.tick)

  -- `.ok()`: the error becomes a value
  unfoldable pub attempt : Action A → Action (Option A)
  attempt m e c = (some (m e c).0, (m e c).1)

infixl 5 ◌>>=◌ ◌>>◌
-- `.await?` and what follows it
unfoldable pub ◌>>=◌ : {A B : Type 0} → Action A → (A → Action B) → Action B
◌>>=◌ m f e c = let (r, c') = m e c in elim r [ none ↦ (none, c') | some a ↦ f a e c' ]

unfoldable pub ◌>>◌ : {A B : Type 0} → Action A → Action B → Action B
unfolding ◌>>=◌
m >> k = m >>= λ _. k

-- A `SELECT`.
unfoldable pub select : {A : Type 0} → (Tables → A) → Action A
unfolding statement
select f = statement (λ t. some (f t, t))

-- `fetch_one`: no row is an error.
abbrev pub one_row : {A : Type 0} → Tables → Option A → Option (A × Tables)
one_row t none = none
one_row t (some a) = some (a, t)

unfoldable pub fetch_one : {A : Type 0} → (Tables → Option A) → Action A
unfolding statement
fetch_one f = statement (λ t. one_row t (f t))

-- Nobody else is connected and no statement fails.
abbrev pub quiet : Env
quiet = record { fails = λ n. false; others = λ n t. t }

-- The combinators, for the `unfolding` line of a proof that runs an action.
unfoldable pub running : Unit {0}
unfolding pure fail attempt statement select fetch_one ◌>>=◌ ◌>>◌
running = tt
