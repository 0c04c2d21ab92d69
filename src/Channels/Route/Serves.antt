-- ===== src/Channels/Route/Serves.antt =====
-- Which channels of a list serve a model, for the listings and the router of src/channels.rs alike.
use yunova.Base.{
  ℕ, ◌≡◌, refl, sym, ap, subst, ◌∙◌, eq_iff, Bool, false, not, ◌&&◌, ◌||◌, Option, none, some, List,
  [], ◌∷◌, map, any, any-append, any_cong, any_or, String, ◌==◌, arith, inl, inr, Bool-cases,
}
use text.Mathlib.Text.{◌==◌ as str_eq}
use yunova.Schema.{Channel, ChannelModel}
use yunova.Channels.Select.{
  Bound, Catalog, ChannelChoice, insert_row, order_rows, join_channels, join_bindings,
  enabled_channels, choice_of, or_model, advertising, unreadable, or_unreadable,
  narrow_to_advertised, probe_chain_catalogs,
}
use yunova.Channels.Serving.{
  unaliased, enabled_rows, find_alias, upstream_model_of, serves, serving_channels, is_empty,
}
use yunova.Channels.Serving.Rows.{rows_of, IsKeyed}
use yunova.Channels.Route.{speaking}

-- The order is nothing to `any`.
any-insert_row :
    (p : Bound → Bool) (r : Bound) (rs : List Bound) → any p (insert_row r rs) ≡ p r || any p rs
unfolding insert_row
any-insert_row p r [] = refl
any-insert_row p r (s ∷ rs) = ground (arith, any-insert_row p r rs)

pub any-order_rows : (p : Bound → Bool) (rs : List Bound) → any p (order_rows rs) ≡ any p rs
unfolding order_rows
any-order_rows p [] = refl
any-order_rows p (r ∷ rs) =
    any-insert_row p r (order_rows rs) ∙ ap (λ b. p r || b) (any-order_rows p rs)

module _ (probe : Channel → Catalog) (protocol model : String) where
  unfoldable pub able : Bound → Bool
  able (c, alias) = str_eq c.protocol protocol && serves (some (or_model model alias)) (probe c)

  unfoldable pub fits : ChannelChoice → Bool
  fits c = str_eq c.channel.protocol protocol && serves (some c.upstream_model) (probe c.channel)

  left : List (ChannelChoice × Catalog) → Bool
  left rs = not (is_empty (advertising rs)) || not (is_empty (unreadable rs))

  left-narrow_to_advertised :
      (rs : List (ChannelChoice × Catalog)) → not (is_empty (narrow_to_advertised rs)) ≡ left rs
  unfolding narrow_to_advertised left or_unreadable is_empty
  left-narrow_to_advertised rs = either (advertising rs)
    where
      either :
          (xs : List ChannelChoice)
          → not (is_empty (or_unreadable xs (unreadable rs)))
            ≡ not (is_empty xs) || not (is_empty (unreadable rs))
      either [] = refl
      either (x ∷ xs) = refl

  left-speaking :
      (chain : List ChannelChoice)
      → left (probe_chain_catalogs probe (speaking protocol chain)) ≡ any fits chain
  unfolding left probe_chain_catalogs speaking advertising unreadable is_empty serves fits
  left-speaking [] = refl
  left-speaking (c ∷ cs) = ground (arith, left-speaking cs)

  -- What the narrowing leaves is not empty when some choice of the chain fits.
  pub keeps_some :
      (chain : List ChannelChoice)
      → not (is_empty (narrow_to_advertised (probe_chain_catalogs probe (speaking protocol chain))))
        ≡ any fits chain
  keeps_some chain = left-narrow_to_advertised _ ∙ left-speaking chain

  pub any-choice_of : (rows : List Bound) → any fits (map (choice_of model) rows) ≡ any able rows
  unfolding fits able choice_of
  any-choice_of [] = refl
  any-choice_of (r ∷ rows) = ap (λ b. able r || b) (any-choice_of rows)

  pub any-enabled_channels :
      (cs : List Channel)
      → any able (enabled_channels cs) ≡ any (λ (c : Channel). c.enabled && able (c, none)) cs
  unfolding enabled_channels
  any-enabled_channels [] = refl
  any-enabled_channels (c ∷ cs) = ground (arith, any-enabled_channels cs)

  any-join_channels :
      (id : ℕ) (alias : Option String) (cs : List Channel)
      → any able (join_channels id alias cs)
        ≡ any (λ (c : Channel). (c.id == id && c.enabled) && able (c, alias)) cs
  unfolding join_channels
  any-join_channels id alias [] = refl
  any-join_channels id alias (c ∷ cs) = ground (arith, any-join_channels id alias cs)

  -- A channel serves the model by these rows of it.
  unfoldable pub serving : List (ℕ × Option String) → Channel → Bool
  serving bound c =
      c.enabled
      && (str_eq c.protocol protocol
          && serves (upstream_model_of model (some bound) c.id) (probe c))

  serving_cons :
      (id : ℕ) (alias : Option String) (bound : List (ℕ × Option String)) (c : Channel)
      → find_alias id bound ≡ none
      → serving ((id, alias) ∷ bound) c
        ≡ ((c.id == id && c.enabled) && able (c, alias)) || serving bound c
  unfolding serving able find_alias upstream_model_of serves
  serving_cons id alias bound c fresh = ground (arith, fresh)

  any-none : (cs : List Channel) → any (serving []) cs ≡ false
  unfolding serving upstream_model_of find_alias serves
  any-none [] = refl
  any-none (c ∷ cs) = ground (arith, any-none cs)

  pub any-join_bindings :
      (cs : List Channel) (bs : List ChannelModel)
      → IsKeyed bs
      → any able (join_bindings model cs bs) ≡ any (serving (rows_of model bs)) cs
  unfolding join_bindings rows_of
  any-join_bindings cs [] keyed = sym (any-none cs)
  any-join_bindings cs (b ∷ bs) keyed = elim (Bool-cases (str_eq b.model model)) [
    | inl y ↦ rw y (
        any-append able (join_channels b.channel_id b.upstream_id cs) (join_bindings model cs bs)
        ∙ ap (λ x. x || any able (join_bindings model cs bs))
            (any-join_channels b.channel_id b.upstream_id cs)
        ∙ ap
            (λ x.
              any (λ (c : Channel). (c.id == b.channel_id && c.enabled) && able (c, b.upstream_id))
                cs
              || x)
            (any-join_bindings cs bs keyed.1)
        ∙ sym (
            any_or (λ (c : Channel). (c.id == b.channel_id && c.enabled) && able (c, b.upstream_id))
              (serving (rows_of model bs)) cs)
        ∙ sym (
            any_cong (serving ((b.channel_id, b.upstream_id) ∷ rows_of model bs)) _
              (λ c. serving_cons b.channel_id b.upstream_id (rows_of model bs) c (
                subst (λ m. find_alias b.channel_id (rows_of m bs) ≡ none)
                  ((eq_iff b.model model).0 y) keyed.0))
              cs))
    | inr n ↦ rw n (any-join_bindings cs bs keyed.1)
  ]

  -- A channel serves the model by what the index has of it.
  unfoldable pub offers : Option (List (ℕ × Option String)) → Channel → Bool
  offers bindings c =
      c.enabled
      && (str_eq c.protocol protocol && serves (upstream_model_of model bindings c.id) (probe c))

  pub any-serving_channels :
      (bindings : Option (List (ℕ × Option String))) (rows : List Bound)
      → not (
          is_empty (
            serving_channels model protocol bindings
              (map (λ (r : Bound). (r.0, probe r.0)) (enabled_rows rows))))
        ≡ any (λ (r : Bound). offers bindings r.0) rows
  unfolding offers serving_channels enabled_rows is_empty
  any-serving_channels bindings [] = refl
  any-serving_channels bindings (r ∷ rows) = ground (arith, any-serving_channels bindings rows)

  pub any-unaliased :
      (p : Channel → Bool) (cs : List Channel)
      → any (λ (r : Bound). p r.0) (unaliased cs) ≡ any p cs
  unfolding unaliased
  any-unaliased p [] = refl
  any-unaliased p (c ∷ cs) = ap (λ b. p c || b) (any-unaliased p cs)
