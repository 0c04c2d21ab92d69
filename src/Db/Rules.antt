-- ===== src/Db/Rules.antt =====
-- A property of the tables that every statement keeps holds after an action: the rules of the
-- combinators, for `search`.
use yunova.Base.{ℕ, suc, ◌≡◌, refl, subst, Bool, true, false, Option, none, some, if◌then◌else◌}
use yunova.Schema.{Tables}
use yunova.Db.Types.{
  Env, Conn, Action, pure, fail, answer, statement, attempt, ◌>>=◌, ◌>>◌, select, fetch_one,
  one_row,
}

-- Other requests keep `P`.
abbrev pub IsStable : (Tables → Type 0) → Env → Type 0
IsStable P e = (n : ℕ) (t : Tables) → P t → P (e.others n t)

-- `m` keeps `P` in the environment `e`, whether or not it fails.
pub record Keeps {A : Type 0} (P : Tables → Type 0) (e : Env) (m : Action A) : Type 0 where
  pub apply : (c : Conn) → P c.tables → P (m e c).1.tables

-- The tables that a statement leaves satisfy `P`.
abbrev pub Lands : {A : Type 0} → (Tables → Type 0) → Option (A × Tables) → Type 0
Lands P none = Unit
Lands P (some (a, t)) = P t

answered :
    {A : Type 0} (P : Tables → Type 0) (failed : Bool) (r : Option (A × Tables)) (t : Tables)
    (n : ℕ)
    → P t
    → Lands P r
    → P (answer failed r t n).1.tables
answered P true r t n h k = h
answered P false none t n h k = h
answered P false (some (a, t')) t n h k = k

one_row-Lands :
    {A : Type 0} (P : Tables → Type 0) (t : Tables) (r : Option A) → P t → Lands P (one_row t r)
one_row-Lands P t none h = tt
one_row-Lands P t (some b) h = h

module _ {P : Tables → Type 0} {e : Env} where
  pub pure-Keeps : {A : Type 0} (a : A) → Keeps P e (pure a)
  unfolding pure
  pure-Keeps a = record { apply = λ c h. h }

  pub fail-Keeps : {A : Type 0} → Keeps {A = A} P e fail
  unfolding fail
  fail-Keeps = record { apply = λ c h. h }

  pub attempt-Keeps : {A : Type 0} {m : Action A} → Keeps P e m → Keeps P e (attempt m)
  unfolding attempt
  attempt-Keeps k = record { apply = λ c h. k.apply c h }

  bind_case :
      {A B : Type 0} (r : Option A) (f : A → Action B) (c : Conn)
      → ((a : A) → Keeps P e (f a))
      → P c.tables
      → P (◌>>=◌ (λ e' c'. (r, c)) f e c).1.tables
  unfolding ◌>>=◌
  bind_case none f c k h = h
  bind_case (some a) f c k h = (k a).apply c h

  pub bind-Keeps :
      {A B : Type 0} {m : Action A} {f : A → Action B}
      → Keeps P e m
      → ((a : A) → Keeps P e (f a))
      → Keeps P e (m >>= f)
  unfolding ◌>>=◌
  bind-Keeps {m = m} {f = f} k l = record {
    apply = λ c h. bind_case (m e c).0 f (m e c).1 l (k.apply c h);
  }

  pub then-Keeps :
      {A B : Type 0} {m : Action A} {k : Action B} → Keeps P e m → Keeps P e k → Keeps P e (m >> k)
  unfolding ◌>>◌
  then-Keeps h l = bind-Keeps h (λ a. l)

  pub if-Keeps :
      {A : Type 0} (b : Bool) {m k : Action A}
      → Keeps P e m
      → Keeps P e k
      → Keeps P e (if b then m else k)
  if-Keeps true h l = h
  if-Keeps false h l = l

  pub statement-Keeps :
      {A : Type 0} (f : Tables → Option (A × Tables))
      → IsStable P e
      → ((t : Tables) → P t → Lands P (f t))
      → Keeps P e (statement f)
  unfolding statement
  statement-Keeps f s k = record {
    apply = λ c h.
        let t = e.others c.tick c.tables in
        let p = s c.tick c.tables h in answered P (e.fails c.tick) (f t) t (suc c.tick) p (k t p);
  }

  pub select-Keeps : {A : Type 0} (f : Tables → A) → IsStable P e → Keeps P e (select f)
  unfolding select
  select-Keeps f s = statement-Keeps (λ t. some (f t, t)) s (λ t h. h)

  pub fetch_one-Keeps :
      {A : Type 0} (f : Tables → Option A) → IsStable P e → Keeps P e (fetch_one f)
  unfolding fetch_one
  fetch_one-Keeps f s = statement-Keeps (λ t. one_row t (f t)) s (λ t h. one_row-Lands P t (f t) h)

-- Besides keeping `P`, an action that answers has an answer in `Q`.
pub record Ensures {A : Type 0} (P : Tables → Type 0) (e : Env) (Q : A → Type 0) (m : Action A)
    : Type 0 where
  pub keeps : Keeps P e m
  pub result : (c : Conn) → P c.tables → (a : A) → (m e c).0 ≡ some a → Q a

-- `Q` of the answer of a statement.
abbrev pub Answers : {A : Type 0} → (A → Type 0) → Option (A × Tables) → Type 0
Answers Q none = Unit
Answers Q (some (a, t)) = Q a

abbrev pub IfSome : {A : Type 0} → (A → Type 0) → Option A → Type 0
IfSome Q none = Unit
IfSome Q (some a) = Q a

answer_result :
    {A : Type 0} (Q : A → Type 0) (failed : Bool) (r : Option (A × Tables)) (t : Tables) (n : ℕ)
    → Answers Q r
    → (a : A) → (answer failed r t n).0 ≡ some a
    → Q a
answer_result Q true r t n h a q = cc
answer_result Q false none t n h a q = cc
answer_result Q false (some (b, t')) t n h a q = let e : b ≡ a = cc in subst Q e h

attempted :
    {A : Type 0} (Q : A → Type 0) (r : Option A)
    → ((a : A) → r ≡ some a → Q a)
    → (o : Option A) → some r ≡ some o
    → IfSome Q o
attempted Q r h none q = tt
attempted Q r h (some a) q = let e : r ≡ some a = cc in h a e

module _ {P : Tables → Type 0} {e : Env} where
  pub statement-Ensures :
      {A : Type 0} (f : Tables → Option (A × Tables)) {Q : A → Type 0}
      → IsStable P e
      → ((t : Tables) → P t → Lands P (f t))
      → ((t : Tables) → P t → Answers Q (f t))
      → Ensures P e Q (statement f)
  unfolding statement
  statement-Ensures f {Q = Q} s k l = record {
    keeps = statement-Keeps f s k;
    result = λ c h a q.
        let t = e.others c.tick c.tables in
        answer_result Q (e.fails c.tick) (f t) t (suc c.tick) (l t (s c.tick c.tables h)) a q;
  }

  pub attempt-Ensures :
      {A : Type 0} {m : Action A} {Q : A → Type 0}
      → Ensures P e Q m
      → Ensures P e (IfSome Q) (attempt m)
  unfolding attempt
  attempt-Ensures {m = m} {Q = Q} k = record {
    keeps = attempt-Keeps k.keeps;
    result = λ c h o q. attempted Q (m e c).0 (k.result c h) o q;
  }

  checked_case :
      {A B : Type 0} (Q : A → Type 0) (r : Option A) (f : A → Action B) (c : Conn)
      → ((a : A) → Q a → Keeps P e (f a))
      → ((a : A) → r ≡ some a → Q a)
      → P c.tables
      → P (◌>>=◌ (λ e' c'. (r, c)) f e c).1.tables
  unfolding ◌>>=◌
  checked_case Q none f c k q h = h
  checked_case Q (some a) f c k q h = (k a (q a refl)).apply c h

  pub checked-Keeps :
      {A B : Type 0} {m : Action A} {f : A → Action B} {Q : A → Type 0}
      → Ensures P e Q m
      → ((a : A) → Q a → Keeps P e (f a))
      → Keeps P e (m >>= f)
  unfolding ◌>>=◌
  checked-Keeps {m = m} {f = f} {Q = Q} k l = record {
    apply = λ c h. checked_case Q (m e c).0 f (m e c).1 l (k.result c h) (k.keeps.apply c h);
  }
