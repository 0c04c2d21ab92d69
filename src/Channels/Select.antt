-- ===== src/Channels/Select.antt =====
-- The choice of the channels for a model, in src/channels.rs. A catalog is the list of models that an
-- upstream advertises; `none` is a catalog that cannot be read.
use yunova.Base.{
  ℕ, Bool, true, false, ◌&&◌, ◌||◌, Option, none, some, List, [], ◌∷◌, ◌++◌, map, any, String,
  if◌then◌else◌, ◌==◌, leb,
}
use text.Mathlib.Text.{◌==◌ as str_eq}
use yunova.Base.Int.{ltb_ℤ, eqb_ℤ}
use yunova.Schema.{Channel, ChannelModel}
use yunova.Db.{Action, pure, select, ◌>>=◌}

-- A channel with the alias of the model there.
abbrev pub Bound : Type 0
Bound = Channel × Option String

-- `ORDER BY priority, id`
abbrev pub comes_first : Channel → Channel → Bool
comes_first a b = ltb_ℤ a.priority b.priority || eqb_ℤ a.priority b.priority && leb a.id b.id

unfoldable pub insert_row : Bound → List Bound → List Bound
insert_row r [] = r ∷ []
insert_row r (s ∷ rest) =
    let later = insert_row r rest in if comes_first r.0 s.0 then r ∷ s ∷ rest else s ∷ later

unfoldable pub order_rows : List Bound → List Bound
order_rows [] = []
order_rows (r ∷ rs) = insert_row r (order_rows rs)

-- The enabled channels with this id, under an alias.
unfoldable pub join_channels : ℕ → Option String → List Channel → List Bound
join_channels id alias [] = []
join_channels id alias (c ∷ cs) =
    let rest = join_channels id alias cs in
    if c.id == id && c.enabled then (c, alias) ∷ rest else rest

unfoldable pub join_bindings : String → List Channel → List ChannelModel → List Bound
join_bindings model cs [] = []
join_bindings model cs (b ∷ bs) =
    let rest = join_bindings model cs bs in
    if str_eq b.model model then join_channels b.channel_id b.upstream_id cs ++ rest else rest

unfoldable pub enabled_channels : List Channel → List Bound
enabled_channels [] = []
enabled_channels (c ∷ cs) =
    let rest = enabled_channels cs in if c.enabled then (c, none) ∷ rest else rest

-- `model_has_explicit_binding`
unfoldable pub is_bound : String → List ChannelModel → Bool
is_bound model [] = false
is_bound model (b ∷ bs) = str_eq b.model model || is_bound model bs

unfoldable pub model_has_explicit_binding : String → Action Bool
model_has_explicit_binding model = select (λ t. is_bound model t.channel_models)

-- The rest of `channels_for_model`, where the join has no row.
unfoldable pub unbound_channels : Bool → Action (List Bound)
unbound_channels true = pure []
unbound_channels false = select (λ t. order_rows (enabled_channels t.channels))

unfoldable pub channels_for_model : String → Action (List Bound)
channels_for_model model = do
  rows ← select (λ t. order_rows (join_bindings model t.channels t.channel_models))
  elim rows [
    | r ∷ rs ↦ pure (r ∷ rs)
    | [] ↦ do bound ← model_has_explicit_binding model; unbound_channels bound
  ]

pub record ChannelChoice : Type 0 where
  pub channel : Channel
  pub upstream_model : String

abbrev pub or_model : String → Option String → String
or_model model none = model
or_model model (some alias) = alias

unfoldable pub choice_of : String → Bound → ChannelChoice
choice_of model r = record { channel = r.0; upstream_model = or_model model r.1 }

unfoldable pub select_chain : String → Action (List ChannelChoice)
select_chain model = do rows ← channels_for_model model; pure (map (choice_of model) rows)

unfoldable pub head_choice : List ChannelChoice → Option ChannelChoice
head_choice [] = none
head_choice (c ∷ cs) = some c

unfoldable pub select_one : String → Action (Option ChannelChoice)
select_one model = do chain ← select_chain model; pure (head_choice chain)

abbrev pub Catalog : Type 0
Catalog = Option (List String)

unfoldable pub lists_model : String → List String → Bool
lists_model model models = any (str_eq model) models

-- The choices whose catalog lists the model, and those whose catalog cannot be read.
unfoldable pub advertising : List (ChannelChoice × Catalog) → List ChannelChoice
advertising [] = []
advertising ((c, none) ∷ rs) = advertising rs
advertising ((c, some models) ∷ rs) =
    let rest = advertising rs in if lists_model c.upstream_model models then c ∷ rest else rest

unfoldable pub unreadable : List (ChannelChoice × Catalog) → List ChannelChoice
unreadable [] = []
unreadable ((c, none) ∷ rs) = c ∷ unreadable rs
unreadable ((c, some models) ∷ rs) = unreadable rs

unfoldable pub or_unreadable : List ChannelChoice → List ChannelChoice → List ChannelChoice
or_unreadable [] unknown = unknown
or_unreadable (c ∷ cs) unknown = c ∷ cs

unfoldable pub narrow_to_advertised : List (ChannelChoice × Catalog) → List ChannelChoice
narrow_to_advertised results = or_unreadable (advertising results) (unreadable results)

-- `probe` is the answer of `cached_channel_catalog`.
unfoldable pub probe_chain_catalogs :
    (Channel → Catalog) → List ChannelChoice → List (ChannelChoice × Catalog)
probe_chain_catalogs probe chain = map (λ (c : ChannelChoice). (c, probe c.channel)) chain

unfoldable pub select_chain_by_advertised_model :
    (Channel → Catalog) → String → Action (List ChannelChoice)
select_chain_by_advertised_model probe model = do
  candidates ← select_chain model
  pure (narrow_to_advertised (probe_chain_catalogs probe candidates))
