-- ===== src/Channels/Catalog.antt =====
-- The cache of the upstreams' model lists in src/channels.rs. Times are seconds of a clock that does
-- not go back; `hash` is the digest of the standard library's hasher.
use yunova.Base.{
  ℕ, ◌+◌, ◌-◌, not, ◌≤◌, ◌≡◌, Bool, true, false, ◌&&◌, Option, none, some, String, if◌then◌else◌,
  ◌==◌, ltb, arith,
}
use yunova.Schema.{Channel}
use yunova.Channels.Select.{Catalog}

abbrev pub catalog_ttl : ℕ
catalog_ttl = 300

abbrev pub catalog_error_ttl : ℕ
catalog_error_ttl = 60

pub record CachedCatalog : Type 0 where
  pub signature : ℕ
  pub fetched_at : ℕ
  pub models : Catalog

abbrev pub CatalogCache : Type 0
CatalogCache = ℕ → Option CachedCatalog

unfoldable pub ttl : Catalog → ℕ
ttl none = catalog_error_ttl
ttl (some models) = catalog_ttl

unfoldable pub put_catalog : ℕ → Option CachedCatalog → CatalogCache → CatalogCache
put_catalog id entry cache = λ i. if i == id then entry else cache i

unfoldable pub invalidate_catalog : ℕ → CatalogCache → CatalogCache
invalidate_catalog id cache = put_catalog id none cache

module _ (hash : String → String → String → ℕ) where
  unfoldable pub channel_signature : Channel → ℕ
  channel_signature ch = hash ch.protocol ch.base_url ch.api_key

  -- The entry that answers without a probe.
  unfoldable pub hit : Bool → Channel → ℕ → CatalogCache → Option CachedCatalog
  hit refresh ch now cache = elim (cache ch.id) [
    | none ↦ none
    | some h ↦
        if not refresh
          && (h.signature == channel_signature ch && ltb (now - h.fetched_at) (ttl h.models))
        then some h
        else none
  ]

  -- `answer` is what `probe_channel_models` gives, if it is asked, by the time `later`.
  unfoldable pub cached_channel_catalog :
      Bool → Channel → ℕ → ℕ → Catalog → CatalogCache → Catalog × CatalogCache
  cached_channel_catalog refresh ch now later answer cache = elim (hit refresh ch now cache) [
    | some h ↦ (h.models, cache)
    | none ↦ (
      answer,
      put_catalog ch.id
          (some (record { signature = channel_signature ch; fetched_at = later; models = answer }))
          cache,
    )
  ]

  -- After a refresh the answer stands for its time to live, and then the upstream is asked again. It is
  -- asked before that where the digest of the channel's connection changed or the entry was dropped. The
  -- entries of other channels stay as they were.
  pub cached_channel_catalog_lasts :
      (ch edited : Channel) (now later at end : ℕ) (answer other : Catalog) (cache : CatalogCache)
      (id : ℕ)
      → later ≤ at
      → edited.id ≡ ch.id
      → (id == ch.id) ≡ false
      → let next = (cached_channel_catalog true ch now later answer cache).1 in
        let same = channel_signature edited == channel_signature ch in
        let dropped = invalidate_catalog ch.id next in
        ((cached_channel_catalog false edited at end other next).0
          ≡ (if same && ltb at (later + ttl answer) then answer else other))
        × ((cached_channel_catalog false ch at end other dropped).0 ≡ other)
        × (next id ≡ cache id)
  unfolding cached_channel_catalog hit put_catalog invalidate_catalog
  cached_channel_catalog_lasts ch edited now later at end answer other cache id h e n =
      (ground arith, ground arith, ground arith)
