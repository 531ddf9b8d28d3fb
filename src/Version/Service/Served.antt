-- ===== src/Version/Service/Served.antt =====
-- What the version service (internal/service/version_service.go) serves after an update.
use giraffecloud.Base.{
  ℕ, ◌≡◌, refl, ap, ◌∙◌, subst, inl, inr, Bool, true, false, ◌&&◌, ◌||◌, List, [], ◌∷◌, ◌++◌, Bytes,
  codes, ◌==◌, bytes_eq, bytes_beq_iff, select, arith, Bool-cases, beq_refl, if◌then◌else◌,
}
use giraffecloud.Tunnels.Store.{DbResult, ok, err, not_found, failed}
use giraffecloud.Version.{is_update_available, is_update_required}
use giraffecloud.Version.Configs.{
  ClientVersion, ClientVersionConfigUpdate, ClientVersionInfo, VersionClient, update_version,
  at_key, metadata_text, version_info, answer, or_default, set_config, new_config,
}
use giraffecloud.Version.Service.{
  get_client_version_config, get_version_info, upsert, update_client_version_config,
}

-- The configuration has the values of the update.
abbrev pub Configured : ClientVersionConfigUpdate → ClientVersion → Type 0
Configured u c =
    (c.channel ≡ u.channel)
    × (c.latest_version ≡ u.latest_version)
    × (c.minimum_version ≡ u.minimum_version)
    × (c.download_url ≡ u.download_url)
    × (c.release_notes ≡ u.release_notes)
    × (c.force_update ≡ u.force_update)
    × (c.metadata ≡ u.metadata)

module _ (p : ClientVersion → Bool) where
  select-append :
      (cs : List ClientVersion) (c : ClientVersion)
      → select p cs ≡ []
      → p c ≡ true
      → select p (cs ++ c ∷ []) ≡ c ∷ []
  select-append [] c h k = rw k refl
  select-append (d ∷ cs) c h k = elim (Bool-cases (p d)) [
    | inl e ↦ let absurdity = rw e at h in cc
    | inr e ↦ rw e (select-append cs c (rw e at h) k)
  ]

  -- An update that keeps the condition changes the selected rows alone.
  select-update :
      (id : Bytes) (f : ClientVersion → ClientVersion) (cs : List ClientVersion)
      → ((c : ClientVersion) → p (f c) ≡ p c)
      → select p (update_version id f cs) ≡ update_version id f (select p cs)
  select-update id f [] k = refl
  select-update id f (c ∷ cs) k = elim (Bool-cases (c.id == id)) [
    | inl same ↦ elim (Bool-cases (p c)) [
      | inl e ↦ rw (same, e) (ground (arith, k c, e, same, select-update id f cs k))
      | inr e ↦ rw (same, e) (ground (arith, k c, e, same, select-update id f cs k))
    ]
    | inr other ↦ elim (Bool-cases (p c)) [
      | inl e ↦ rw (other, e) (ground (arith, e, other, select-update id f cs k))
      | inr e ↦ rw (other, e) (ground (arith, e, other, select-update id f cs k))
    ]
  ]

  select-holds :
      (cs ds : List ClientVersion) (c : ClientVersion) → select p cs ≡ c ∷ ds → p c ≡ true
  select-holds [] ds c h = cc
  select-holds (d ∷ cs) ds c h = elim (Bool-cases (p d)) [
    | inl e ↦ let same : d ≡ c = ground (arith, rw e at h) in subst (λ x. p x ≡ true) same e
    | inr e ↦ select-holds cs ds c (rw e at h)
  ]

abbrev key : ClientVersionConfigUpdate → ClientVersion → Bool
key u = at_key u.channel u.platform u.arch

key-set_config :
    (u : ClientVersionConfigUpdate) (now : ℕ) (c : ClientVersion)
    → key u (set_config u now c) ≡ key u c
unfolding set_config
key-set_config u now c = refl

key-new_config : (u : ClientVersionConfigUpdate) (now : ℕ) → key u (new_config u now) ≡ true
unfolding new_config
key-new_config u now = ground (arith, beq_refl u.channel, beq_refl u.platform, beq_refl u.arch)

new_config-Configured : (u : ClientVersionConfigUpdate) (now : ℕ) → Configured u (new_config u now)
unfolding new_config
new_config-Configured u now = (refl, refl, refl, refl, refl, refl, refl)

set_config-Configured :
    (u : ClientVersionConfigUpdate) (now : ℕ) (c : ClientVersion)
    → key u c ≡ true
    → Configured u (set_config u now c)
unfolding set_config
set_config-Configured u now c h =
    (ground (arith, bytes_beq_iff c.channel u.channel, h), refl, refl, refl, refl, refl, refl)

-- The answer has the values of the update, and an update is required when the client's version is
-- below the minimum, or when updates are forced and a newer version is there.
pub record Serves (u : ClientVersionConfigUpdate) (client_version : Bytes)
    (info : ClientVersionInfo) : Type 0 where
  pub channel : info.channel ≡ u.channel
  pub latest_version : info.latest_version ≡ u.latest_version
  pub minimum_version : info.minimum_version ≡ u.minimum_version
  pub current_version : info.current_version ≡ client_version
  pub update_available : info.update_available ≡ is_update_available client_version u.latest_version
  pub update_required : info.update_required ≡ (
      is_update_required client_version u.minimum_version
      || (u.force_update && is_update_available client_version u.latest_version))
  pub release_tag : info.release_tag ≡ metadata_text (codes "release_tag") u.metadata
  pub short_version : info.short_version ≡ metadata_text (codes "short_version") u.metadata
  pub download_url : info.download_url ≡ u.download_url
  pub release_notes : info.release_notes ≡ u.release_notes

version_info-Serves :
    (u : ClientVersionConfigUpdate) (client_version : Bytes) (c : ClientVersion)
    → Configured u c
    → Serves u client_version (version_info client_version c)
unfolding version_info
version_info-Serves u v c (ch, latest, minimum, url, notes, force, meta) = record {
  channel = ch;
  latest_version = latest;
  minimum_version = minimum;
  current_version = refl;
  update_available = ap (is_update_available v) latest;
  update_required = rw (latest, minimum, force) refl;
  release_tag = ap (metadata_text (codes "release_tag")) meta;
  short_version = ap (metadata_text (codes "short_version")) meta;
  download_url = url;
  release_notes = notes;
}

module _ {S : Type 0} (client : VersionClient S) where
  -- After a successful update the key has one row, with the values of the update.
  abbrev One : ClientVersionConfigUpdate → S → Type 0
  One u s = (c : ClientVersion) × (select (key u) (client.rows s) ≡ c ∷ []) × Configured u c

  upsert-One :
      (u : ClientVersionConfigUpdate) (now : ℕ) (s : S) (r : DbResult ClientVersion)
      → client.only (key u) s ≡ r
      → (upsert client u now r s).1 ≡ ok tt
      → One u (upsert client u now r s).0
  unfolding upsert
  upsert-One u now s (ok e) found h =
      let row = client.only_row (key u) s e found in
      (
        set_config u now e,
        ap (select (key u)) (client.update_rows e.id (set_config u now) s h)
            ∙ select-update (key u) e.id (set_config u now) (client.rows s) (key-set_config u now)
            ∙ ap (update_version e.id (set_config u now)) row
            ∙ ap (λ b. (if b then set_config u now e else e) ∷ []) (beq_refl e.id),
        set_config-Configured u now e (select-holds (key u) (client.rows s) [] e row),
      )
  upsert-One u now s (err not_found) found h = (
    new_config u now,
    ap (select (key u)) (client.create_rows (new_config u now) s h)
        ∙ select-append (key u) (client.rows s) (new_config u now)
            (client.only_missing (key u) s found) (key-new_config u now),
    new_config-Configured u now,
  )
  upsert-One u now s (err failed) found h = cc

  -- After UpdateClientVersionConfig has succeeded for a channel, platform and architecture that are
  -- not empty, and as long as the query for that configuration succeeds, GetVersionInfo serves the
  -- values of the update to a client of that channel, platform and architecture.
  pub get_version_info-update :
      (goos goarch client_version : Bytes) (u : ClientVersionConfigUpdate) (now : ℕ) (s : S)
      (c : ClientVersion)
      → (u.channel == []) ≡ false
      → (u.platform == []) ≡ false
      → (u.arch == []) ≡ false
      → (update_client_version_config client u now s).1 ≡ ok tt
      → client.only
          (at_key u.channel u.platform u.arch)
          (update_client_version_config client u now s).0
        ≡ ok c
      → Serves u client_version (
          get_version_info client goos goarch client_version u.channel u.platform u.arch
            (update_client_version_config client u now s).0)
  unfolding update_client_version_config get_version_info get_client_version_config or_default
      answer
  get_version_info-update goos goarch client_version u now s c ch pl ar done found =
      let (d, row, configured) = upsert-One u now s (client.only (key u) s) refl done in
      let same : d ≡ c = ground (
        arith,
        row,
        client.only_row (key u) (upsert client u now (client.only (key u) s) s).0 c found,
      ) in
      rw (ch, pl, ar, found)
        (version_info-Serves u client_version c (subst (Configured u) same configured))
