-- ===== src/Channels/Serving/Rows.antt =====
-- The bindings of a model as src/channels.rs collects them, against the rows of the table.
use yunova.Base.{
  ℕ, ◌≡◌, refl, sym, ap, ◌∙◌, Bool, true, false, not, Option, none, some, List, [], ◌∷◌, ◌++◌,
  append_one, String, if◌then◌else◌, arith, inl, inr, Bool-cases,
}
use text.Mathlib.Text.{◌==◌ as str_eq}
use yunova.Schema.{Channel, ChannelModel}
use yunova.Channels.Select.{join_bindings, is_bound}
use yunova.Channels.Serving.{
  Bindings, no_bindings, or_empty, push_binding, push_bindings, find_alias, is_empty,
}

-- The rows of a model, in the order of the table.
unfoldable pub rows_of : String → List ChannelModel → List (ℕ × Option String)
rows_of model [] = []
rows_of model (b ∷ bs) =
    let rest = rows_of model bs in
    if str_eq b.model model then (b.channel_id, b.upstream_id) ∷ rest else rest

-- (channel_id, model) is the primary key of `channel_models`.
abbrev pub IsKeyed : List ChannelModel → Type 0
IsKeyed [] = Unit {0}
IsKeyed (b ∷ bs) = (find_alias b.channel_id (rows_of b.model bs) ≡ none) × IsKeyed bs

-- What a model's entry becomes by its rows.
extend :
    Option (List (ℕ × Option String)) → List (ℕ × Option String) → Option (List (ℕ × Option String))
extend entry [] = entry
extend entry (r ∷ rows) = some (or_empty entry ++ r ∷ rows)

extend_cons :
    (entry : Option (List (ℕ × Option String))) (r : ℕ × Option String)
    (rows : List (ℕ × Option String))
    → extend (some (or_empty entry ++ r ∷ [])) rows ≡ extend entry (r ∷ rows)
unfolding extend or_empty
extend_cons entry r [] = refl
extend_cons entry r (s ∷ rows) = ap some (append_one (or_empty entry) r (s ∷ rows))

push_bindings_at :
    (rows : List ChannelModel) (out : Bindings) (model : String)
    → push_bindings rows out model ≡ extend (out model) (rows_of model rows)
unfolding push_bindings push_binding rows_of extend
push_bindings_at [] out model = refl
push_bindings_at (b ∷ rows) out model = elim (Bool-cases (str_eq b.model model)) [
  | inl y ↦ rw y (
      push_bindings_at rows (push_binding b out) model
      ∙ ap (λ entry. extend entry (rows_of model rows)) (pushed y)
      ∙ extend_cons (out model) (b.channel_id, b.upstream_id) (rows_of model rows))
  | inr n ↦ rw n (
      push_bindings_at rows (push_binding b out) model
      ∙ ap (λ entry. extend entry (rows_of model rows)) (passed n))
]
  where
    pushed :
        str_eq b.model model ≡ true
        → push_binding b out model
          ≡ some (or_empty (out model) ++ (b.channel_id, b.upstream_id) ∷ [])
    pushed y = rw (push_binding, y) refl

    passed : str_eq b.model model ≡ false → push_binding b out model ≡ out model
    passed n = rw (push_binding, n) refl

-- A model without rows has no entry and no binding.
pub rows_of-is_bound :
    (model : String) (bs : List ChannelModel)
    → is_bound model bs ≡ not (is_empty (rows_of model bs))
unfolding is_bound rows_of is_empty
rows_of-is_bound model [] = refl
rows_of-is_bound model (b ∷ bs) = ground (arith, rows_of-is_bound model bs)

pub unbound-join_bindings :
    (model : String) (cs : List Channel) (bs : List ChannelModel)
    → is_bound model bs ≡ false
    → join_bindings model cs bs ≡ []
unfolding is_bound join_bindings
unbound-join_bindings model cs [] free = refl
unbound-join_bindings model cs (b ∷ bs) free = ground (arith, unbound-join_bindings model cs bs)

entry_of :
    (rows : List (ℕ × Option String))
    → extend none rows ≡ (if not (is_empty rows) then some rows else none)
unfolding extend or_empty is_empty
entry_of [] = refl
entry_of (r ∷ rows) = refl

-- The entry of a model is its rows, if there are any.
pub entry :
    (model : String) (bs : List ChannelModel) (b : Bool)
    → is_bound model bs ≡ b
    → push_bindings bs no_bindings model ≡ (if b then some (rows_of model bs) else none)
entry model bs b e =
    push_bindings_at bs no_bindings model
    ∙ entry_of (rows_of model bs)
    ∙ ap (λ x. if x then some (rows_of model bs) else none) (sym (rows_of-is_bound model bs) ∙ e)
