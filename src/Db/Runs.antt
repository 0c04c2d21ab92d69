-- ===== src/Db/Runs.antt =====
-- An action whose first step's result is known.
use yunova.Base.{◌≡◌, ap, Option, none, some}
use yunova.Db.Types.{Env, Conn, Action, ◌>>=◌}

pub bind_at :
    {A B : Type 0} (m : Action A) (k : A → Action B) (e : Env) (c c' : Conn) (a : A)
    → m e c ≡ (some a, c')
    → (m >>= k) e c ≡ k a e c'
unfolding ◌>>=◌
bind_at {A} {B} m k e c c' a h = ap run h
  where
    run : Option A × Conn → Option B × Conn
    run r = elim r.0 [ none ↦ (none, r.1) | some x ↦ k x e r.1 ]
