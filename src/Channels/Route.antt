-- ===== src/Channels/Route.antt =====
-- `resolve_route` of src/channels.rs: to an upstream of the client's own, or to a chain of channels.
pub mod Serves
pub mod Available
use yunova.Base.{ℕ, Bool, true, false, Option, none, some, List, [], ◌∷◌, String, if◌then◌else◌}
use text.Mathlib.Text.{◌==◌ as str_eq}
use yunova.Base.Text.{trim}
use yunova.Db.{Action, pure, attempt, ◌>>=◌}
use yunova.Schema.{Channel}
use yunova.AgentToken.Headers.{Headers}
use yunova.Channels.Select.{
  ChannelChoice, Catalog, select_chain, probe_chain_catalogs, narrow_to_advertised,
}
use yunova.Channels.Balance.{Counters, balance_chain}

-- A header is there for `header_str` when its trimmed text is not empty.
unfoldable pub non_empty : List ℕ → Option (List ℕ)
non_empty [] = none
non_empty (c ∷ cs) = some (c ∷ cs)

unfoldable pub header_str : Headers → String → Option (List ℕ)
header_str headers name = elim (headers name) [ none ↦ none | some v ↦ non_empty (trim v) ]

pub record ByokRoute : Type 0 where
  pub base_url : List ℕ
  pub api_key : List ℕ

pub data Route : Type 0 where
  byok : ByokRoute → Route
  channels : String → List ChannelChoice → Route

-- The responses that refuse a request.
pub data RouteError : Type 0 where
  missing_model lookup_failed no_channel not_offered : RouteError

pub data RouteResult : Type 0 where
  routed : Route → RouteResult
  refused : RouteError → RouteResult

unfoldable pub byok_of : Option (List ℕ) → Option (List ℕ) → Option ByokRoute
byok_of (some u) (some k) = some (record { base_url = u; api_key = k })
byok_of _ _ = none

unfoldable pub speaking : String → List ChannelChoice → List ChannelChoice
speaking protocol [] = []
speaking protocol (c ∷ cs) =
    let rest = speaking protocol cs in if str_eq c.channel.protocol protocol then c ∷ rest else rest

unfoldable pub balanced : String → List ChannelChoice → Counters → RouteResult × Counters
balanced model [] counters = (refused not_offered, counters)
balanced model (c ∷ cs) counters =
    let (chain, next) = balance_chain (c ∷ cs) counters in (routed (channels model chain), next)

-- The part after the filter by protocol.
unfoldable pub narrowed :
    (Channel → Catalog) → String → List ChannelChoice → Counters → RouteResult × Counters
narrowed probe model [] counters = (refused no_channel, counters)
narrowed probe model (c ∷ cs) counters =
    balanced model (narrow_to_advertised (probe_chain_catalogs probe (c ∷ cs))) counters

-- `probe` is the answer of `cached_channel_catalog`, and `counters` those of the key prefix
-- `{flavor}:{protocol}:{model}`.
unfoldable pub resolve_channels :
    (Channel → Catalog) → String → String → Counters → Action (RouteResult × Counters)
resolve_channels probe protocol model counters = do
  chain ← attempt (select_chain model)
  pure (elim chain [
    | none ↦ (refused lookup_failed, counters)
    | some chain ↦ narrowed probe model (speaking protocol chain) counters
  ])

unfoldable pub resolve_route :
    (Channel → Catalog) → Headers → String → String → Counters → Action (RouteResult × Counters)
resolve_route probe headers protocol model counters =
    elim (byok_of (header_str headers "x-upstream-url") (header_str headers "x-upstream-key")) [
      | some own ↦ pure (routed (byok own), counters)
      | none ↦
          if str_eq model ""
          then pure (refused missing_model, counters)
          else resolve_channels probe protocol model counters
    ]
