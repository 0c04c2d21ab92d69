-- ===== src/Channels/Route/Available.antt =====
-- The listings and the router of src/channels.rs agree on the models that are available.
use yunova.Base.{
  ℕ, ◌≡◌, refl, sym, ap, ◌∙◌, Bool, true, false, not, ◌&&◌, Option, none, some, List, [], ◌∷◌, map,
  any, any_cong, String, if◌then◌else◌, arith, inl, inr, Bool-cases,
}
use text.Mathlib.Text.{◌==◌ as str_eq}
use yunova.Schema.{Channel, ChannelModel}
use yunova.Db.{Conn, quiet, running}
use yunova.AgentToken.Headers.{Headers}
use yunova.Channels.Select.{
  Bound, Catalog, ChannelChoice, order_rows, join_bindings, enabled_channels, is_bound,
  model_has_explicit_binding, unbound_channels, channels_for_model, choice_of, select_chain,
  advertising, unreadable, or_unreadable, narrow_to_advertised, probe_chain_catalogs,
}
use yunova.Channels.Serving.{
  no_bindings, push_bindings, load_bindings, list_channels, load, upstream_model_of, is_empty,
  index_serving_channels, is_available, upstream_available,
}
use yunova.Channels.Serving.Rows.{rows_of, IsKeyed, entry, unbound-join_bindings}
use yunova.Channels.Balance.{Counters}
use yunova.Channels.Route.{
  RouteResult, routed, channels, byok_of, header_str, speaking, balanced, narrowed,
  resolve_channels, resolve_route,
}
use yunova.Channels.Route.Serves.{
  any-order_rows, able, keeps_some, any-choice_of, any-enabled_channels, serving, any-join_bindings,
  offers, any-serving_channels, any-unaliased,
}

-- The route is a chain.
unfoldable pub has_chain : Option (RouteResult × Counters) → Bool
has_chain (some (routed (channels model chain), counters)) = true
has_chain _ = false

narrowed-has_chain :
    (probe : Channel → Catalog) (model : String) (chain : List ChannelChoice) (counters : Counters)
    → has_chain (some (narrowed probe model chain counters))
      ≡ not (is_empty (narrow_to_advertised (probe_chain_catalogs probe chain)))
unfolding narrowed balanced has_chain narrow_to_advertised probe_chain_catalogs advertising
    unreadable or_unreadable is_empty
narrowed-has_chain probe model [] counters = refl
narrowed-has_chain probe model (c ∷ cs) counters =
    balanced_chain (narrow_to_advertised (probe_chain_catalogs probe (c ∷ cs)))
  where
    balanced_chain :
        (xs : List ChannelChoice)
        → has_chain (some (balanced model xs counters)) ≡ not (is_empty xs)
    balanced_chain [] = refl
    balanced_chain (x ∷ xs) = refl

-- The chain that the router tries, as a function of the tables.
-- The two ways to say that a channel serves the model.
bound_same :
    (probe : Channel → Catalog) (protocol model : String) (bound : List (ℕ × Option String))
    (c : Channel)
    → offers probe protocol model (some bound) c ≡ serving probe protocol model bound c
unfolding offers serving
bound_same probe protocol model bound c = refl

free_same :
    (probe : Channel → Catalog) (protocol model : String) (c : Channel)
    → offers probe protocol model none c ≡ c.enabled && able probe protocol model (c, none)
unfolding offers able upstream_model_of
free_same probe protocol model c = refl

candidates : String → List Channel → List ChannelModel → List Bound
candidates model cs bs =
    if is_bound model bs
    then order_rows (join_bindings model cs bs)
    else order_rows (enabled_channels cs)

order_none : {rs : List Bound} → rs ≡ [] → order_rows rs ≡ []
unfolding order_rows
order_none e = rw e refl

select_chain-quiet :
    (model : String) (c : Conn)
    → (select_chain model quiet c).0
      ≡ some (map (choice_of model) (candidates model c.tables.channels c.tables.channel_models))
unfolding select_chain channels_for_model model_has_explicit_binding unbound_channels candidates
    running
select_chain-quiet model c = elim (Bool-cases (is_bound model c.tables.channel_models)) [
  | inl y ↦
      rw y
        (chosen (order_rows (join_bindings model c.tables.channels c.tables.channel_models)) refl y)
  | inr n ↦
      let none_bound : order_rows (join_bindings model c.tables.channels c.tables.channel_models)
          ≡ [] =
        order_none (unbound-join_bindings model c.tables.channels c.tables.channel_models n) in
      ground arith
]
  where
    chosen :
        (rows : List Bound)
        → order_rows (join_bindings model c.tables.channels c.tables.channel_models) ≡ rows
        → is_bound model c.tables.channel_models ≡ true
        → (select_chain model quiet c).0 ≡ some (map (choice_of model) rows)
    chosen [] e y = ground arith
    chosen (r ∷ rs) e y = ground arith

index_quiet :
    (probe : Channel → Catalog) (model protocol : String) (c : Conn)
    → upstream_available (load probe quiet c).0 model protocol
      ≡ any
          (offers probe protocol model (push_bindings c.tables.channel_models no_bindings model))
          c.tables.channels
unfolding load list_channels load_bindings upstream_available is_available index_serving_channels
    running
index_quiet probe model protocol c =
    any-serving_channels probe protocol model _ _
    ∙ any-order_rows _ _
    ∙ any-unaliased probe protocol model _ _

resolve_route_shared :
    (probe : Channel → Catalog) (headers : Headers) (protocol model : String) (counters : Counters)
    → byok_of (header_str headers "x-upstream-url") (header_str headers "x-upstream-key") ≡ none
    → str_eq model "" ≡ false
    → resolve_route probe headers protocol model counters
      ≡ resolve_channels probe protocol model counters
unfolding resolve_route resolve_channels
resolve_route_shared probe headers protocol model counters shared named =
    rw (resolve_route, shared, named) refl

resolve_channels-quiet :
    (probe : Channel → Catalog) (protocol model : String) (counters : Counters) (c : Conn)
    → (resolve_channels probe protocol model counters quiet c).0
      ≡ some (
          narrowed probe model
            (speaking protocol
              (map (choice_of model) (candidates model c.tables.channels c.tables.channel_models)))
            counters)
unfolding resolve_channels running
resolve_channels-quiet probe protocol model counters c = ground (arith, select_chain-quiet model c)

-- By its entry of the index a model is offered where the router has a candidate for it.
offers-able :
    (probe : Channel → Catalog) (protocol model : String) (cs : List Channel)
    (bs : List ChannelModel)
    → IsKeyed bs
    → any (offers probe protocol model (push_bindings bs no_bindings model)) cs
      ≡ any (able probe protocol model) (candidates model cs bs)
unfolding candidates
offers-able probe protocol model cs bs keyed = elim (Bool-cases (is_bound model bs)) [
  | inl y ↦
      ap (λ bindings. any (offers probe protocol model bindings) cs) (entry model bs true y)
      ∙ any_cong _ _ (bound_same probe protocol model (rows_of model bs)) cs
      ∙ sym (any-join_bindings probe protocol model cs bs keyed)
      ∙ sym (any-order_rows (able probe protocol model) (join_bindings model cs bs))
      ∙ ap
          (λ b. any (able probe protocol model) (
            if b then order_rows (join_bindings model cs bs) else order_rows (enabled_channels cs)))
          (sym y)
  | inr n ↦
      ap (λ bindings. any (offers probe protocol model bindings) cs) (entry model bs false n)
      ∙ any_cong _ _ (free_same probe protocol model) cs
      ∙ sym (any-enabled_channels probe protocol model cs)
      ∙ sym (any-order_rows (able probe protocol model) (enabled_channels cs))
      ∙ ap
          (λ b. any (able probe protocol model) (
            if b then order_rows (join_bindings model cs bs) else order_rows (enabled_channels cs)))
          (sym n)
]

-- The prices and the picker list a model as available where the router finds a chain for it, for a
-- request that names no upstream of its own: the listings and the router read the same tables and the
-- same catalogs, with the bindings of a model and their aliases, and no statement fails.
pub upstream_available-has_chain :
    (probe : Channel → Catalog) (headers : Headers) (protocol model : String) (counters : Counters)
    (c : Conn)
    → byok_of (header_str headers "x-upstream-url") (header_str headers "x-upstream-key") ≡ none
    → str_eq model "" ≡ false
    → IsKeyed c.tables.channel_models
    → upstream_available (load probe quiet c).0 model protocol
      ≡ has_chain (resolve_route probe headers protocol model counters quiet c).0
upstream_available-has_chain probe headers protocol model counters c shared named keyed =
    let t = c.tables in
    index_quiet probe model protocol c
    ∙ offers-able probe protocol model t.channels t.channel_models keyed
    ∙ sym (any-choice_of probe protocol model (candidates model t.channels t.channel_models))
    ∙ sym (
        keeps_some probe protocol model
          (map (choice_of model) (candidates model t.channels t.channel_models)))
    ∙ sym (
        narrowed-has_chain probe model
          (speaking protocol (map (choice_of model) (candidates model t.channels t.channel_models)))
          counters)
    ∙ ap has_chain (sym (resolve_channels-quiet probe protocol model counters c))
    ∙ ap (λ m. has_chain (m quiet c).0)
        (sym (resolve_route_shared probe headers protocol model counters shared named))
