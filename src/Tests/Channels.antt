-- ===== src/Tests/Channels.antt =====
-- Examples of channels, prices and charges.
use mathlib.Core.List.{Perm}
use yunova.Base.{
  ℕ, ◌+◌, ◌<◌, ◌≡◌, refl, true, false, ◌&&◌, none, some, List, [], ◌∷◌, ◌++◌, length, String,
  if◌then◌else◌, ◌==◌, ltb, arith,
}
use text.Mathlib.Text.{◌==◌ as str_eq}
use yunova.Base.Int.{pos}
use yunova.Schema.{Channel}
use yunova.Db.{Conn, quiet}
use yunova.AgentToken.Headers.{Headers}
use yunova.Channels.Select.{ChannelChoice, Catalog}
use yunova.Channels.Balance.{Counters, balance_tier, balance_chain}
use yunova.Channels.Balance.Laws.{take, drop}
use yunova.Channels.Balance.Order.{priorities, balance_chain-Perm}
use yunova.Channels.Balance.Turns.{after_requests, balance_tier_turns}
use yunova.Channels.Serving.{load, find_alias, upstream_available}
use yunova.Channels.Serving.Rows.{IsKeyed, rows_of}
use yunova.Channels.Route.{byok_of, header_str, resolve_route}
use yunova.Channels.Route.Available.{has_chain, upstream_available-has_chain}
use yunova.Channels.Catalog.{
  CatalogCache, ttl, channel_signature, cached_channel_catalog, invalidate_catalog,
  cached_channel_catalog_lasts,
}
use yunova.Tests.Data.{order, tables}

abbrev first : Channel
first = record {
  id = 1;
  name = "first";
  protocol = "openai";
  base_url = "https://a.example";
  api_key = "k1";
  enabled = true;
  priority = pos 10;
}

abbrev second : Channel
second = record first { id = 2; name = "second"; base_url = "https://b.example" }

abbrev spare : Channel
spare = record first { id = 3; name = "spare"; priority = pos 20 }

abbrev choice : Channel → ChannelChoice
choice ch = record { channel = ch; upstream_model = "gpt" }

abbrev tier_of_two : List ChannelChoice
tier_of_two = choice first ∷ choice second ∷ []

abbrev chain : List ChannelChoice
chain = choice first ∷ choice second ∷ choice spare ∷ []

abbrev counters : Counters
counters = λ p. 7

balance_chain-Perm_example :
    Perm (balance_chain chain counters).0 chain
    × (priorities (balance_chain chain counters).0 ≡ priorities chain)
balance_chain-Perm_example = balance_chain-Perm chain counters

balance_tier_turns_example :
    (k : ℕ) × (k < length tier_of_two)
    × ((balance_tier
          (choice first)
          tier_of_two
          (after_requests k (choice first) tier_of_two counters)).0
        ≡ drop 1 tier_of_two ++ take 1 tier_of_two)
balance_tier_turns_example =
    balance_tier_turns (choice first) tier_of_two counters 1 (omega arith) (omega arith)
      (omega arith)

abbrev served : Conn
served = record {
  tables = record (tables order) {
    channels = second ∷ first ∷ spare ∷ [];
    channel_models = record { channel_id = 2; model = "gpt"; upstream_id = some "gpt-x" } ∷ [];
  };
  tick = 0;
}

abbrev catalogs : Channel → Catalog
catalogs ch = if ch.id == 2 then some ("gpt-x" ∷ []) else none

abbrev no_headers : Headers
no_headers name = none

no_upstream :
    byok_of (header_str no_headers "x-upstream-url") (header_str no_headers "x-upstream-key") ≡ none
unfolding byok_of header_str
no_upstream = refl

served-IsKeyed : IsKeyed served.tables.channel_models
unfolding find_alias rows_of
served-IsKeyed = (refl, tt)

upstream_available-has_chain_example :
    upstream_available (load catalogs quiet served).0 "gpt" "openai"
    ≡ has_chain (resolve_route catalogs no_headers "openai" "gpt" counters quiet served).0
upstream_available-has_chain_example =
    upstream_available-has_chain catalogs no_headers "openai" "gpt" counters served no_upstream refl
      served-IsKeyed

abbrev digest : String → String → String → ℕ
digest protocol base_url api_key = if str_eq api_key "k1" then 1 else 2

abbrev empty_cache : CatalogCache
empty_cache id = none

abbrev advertised : Catalog
advertised = some ("gpt" ∷ [])

abbrev rekeyed : Channel
rekeyed = record first { api_key = "k9" }

cached_channel_catalog_lasts_example :
    let next = (cached_channel_catalog digest true first 5 6 advertised empty_cache).1 in
    let same = channel_signature digest rekeyed == channel_signature digest first in
    let dropped = invalidate_catalog first.id next in
    ((cached_channel_catalog digest false rekeyed 100 101 none next).0
      ≡ (if same && ltb 100 (6 + ttl advertised) then advertised else none))
    × ((cached_channel_catalog digest false first 100 101 none dropped).0 ≡ none)
    × (next 2 ≡ empty_cache 2)
cached_channel_catalog_lasts_example =
    cached_channel_catalog_lasts digest first rekeyed 5 6 100 101 advertised none empty_cache 2
      (omega arith) refl refl
