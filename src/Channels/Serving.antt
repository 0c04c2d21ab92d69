-- ===== src/Channels/Serving.antt =====
-- `AvailabilityIndex` of src/channels.rs: the models that the listings offer.

pub mod Rows
use yunova.Base.{
  ℕ, Bool, true, false, ◌&&◌, Option, none, some, List, [], ◌∷◌, ◌++◌, map, String, if◌then◌else◌,
  ◌==◌, not,
}
use text.Mathlib.Text.{◌==◌ as str_eq}
use yunova.Schema.{Channel, ChannelModel}
use yunova.Db.{Action, pure, select, ◌>>=◌}
use yunova.Channels.Select.{Bound, Catalog, order_rows, or_model, lists_model}

-- The rows of a model: a channel and the model's alias there.
abbrev pub Bindings : Type 0
Bindings = String → Option (List (ℕ × Option String))

abbrev pub no_bindings : Bindings
no_bindings model = none

unfoldable pub or_empty : Option (List (ℕ × Option String)) → List (ℕ × Option String)
or_empty none = []
or_empty (some bound) = bound

-- `out.entry(model).or_default().push(…)`
unfoldable pub push_binding : ChannelModel → Bindings → Bindings
push_binding b out = λ model.
    if str_eq b.model model
    then some (or_empty (out model) ++ (b.channel_id, b.upstream_id) ∷ [])
    else out model

unfoldable pub push_bindings : List ChannelModel → Bindings → Bindings
push_bindings [] out = out
push_bindings (b ∷ rows) out = push_bindings rows (push_binding b out)

unfoldable pub load_bindings : Action Bindings
load_bindings = do rows ← select (λ t. t.channel_models); pure (push_bindings rows no_bindings)

-- The `errors` of the index, which are only displayed, are the channels whose catalog is `none`.
pub record AvailabilityIndex : Type 0 where
  pub catalogs : List (Channel × Catalog)
  pub bindings : Bindings

unfoldable pub unaliased : List Channel → List Bound
unaliased [] = []
unaliased (c ∷ cs) = (c, none) ∷ unaliased cs

-- `list_channels`; the rows have no alias.
unfoldable pub list_channels : Action (List Bound)
list_channels = select (λ t. order_rows (unaliased t.channels))

unfoldable pub enabled_rows : List Bound → List Bound
enabled_rows [] = []
enabled_rows (r ∷ rs) = let rest = enabled_rows rs in if r.0.enabled then r ∷ rest else rest

-- `probe` is the answer of `cached_channel_catalog`.
unfoldable pub load : (Channel → Catalog) → Action AvailabilityIndex
load probe = do
  channels ← list_channels
  bindings ← load_bindings
  pure (record {
    catalogs = map (λ (r : Bound). (r.0, probe r.0)) (enabled_rows channels);
    bindings = bindings;
  })

-- `bound.iter().find(|(id, _)| *id == catalog.channel.id)`
unfoldable pub find_alias : ℕ → List (ℕ × Option String) → Option (Option String)
find_alias id [] = none
find_alias id ((channel_id, alias) ∷ bound) =
    if channel_id == id then some alias else find_alias id bound

-- `upstream_model`, where the channel is a candidate.
unfoldable pub upstream_model_of : String → Option (List (ℕ × Option String)) → ℕ → Option String
upstream_model_of model none id = some model
upstream_model_of model (some bound) id = elim (find_alias id bound) [
  | none ↦ none
  | some alias ↦ some (or_model model alias)
]

-- A catalog that cannot be read keeps the channel.
unfoldable pub serves : Option String → Catalog → Bool
serves none models = false
serves (some upstream_model) none = true
serves (some upstream_model) (some models) = lists_model upstream_model models

unfoldable pub serving_channels :
    String → String → Option (List (ℕ × Option String)) → List (Channel × Catalog) → List Channel
serving_channels model protocol bindings [] = []
serving_channels model protocol bindings ((c, models) ∷ catalogs) =
    let out = serving_channels model protocol bindings catalogs in
    if c.enabled
      && str_eq c.protocol protocol
      && serves (upstream_model_of model bindings c.id) models
    then c ∷ out
    else out

unfoldable pub is_empty : {A : Type 0} → List A → Bool
is_empty [] = true
is_empty (x ∷ xs) = false

-- The method `serving_channels` of the index.
unfoldable pub index_serving_channels : AvailabilityIndex → String → String → List Channel
index_serving_channels index model protocol =
    serving_channels model protocol (index.bindings model) index.catalogs

unfoldable pub is_available : AvailabilityIndex → String → String → Bool
is_available index model protocol = not (is_empty (index_serving_channels index model protocol))

-- `upstream_available` of the price table; an index that could not be loaded keeps every model.
unfoldable pub upstream_available : Option AvailabilityIndex → String → String → Bool
upstream_available none model protocol = true
upstream_available (some index) model protocol = is_available index model protocol
