-- ===== src/PerfAudit/Assets/Stats.antt =====
-- `buildAssetStats` of frontend/web-app/scripts/perf-audit.mjs. The sizes of the compressed files are given.
use secret_letter.Prelude.{
  ℕ, ◌+◌, ◌≡◌, ◌⊎◌, inl, inr, refl, List, [], ◌∷◌, true, Option, none, some, Option-cases,
}
use secret_letter.Text.{Text}
use secret_letter.PerfAudit.Assets.{
  Manifest, has, Collected, find_entry_key, collect_initial_assets, collect_all_asset_files,
}
use secret_letter.PerfAudit.Assets.All.{initial-all}

pub record AssetStats : Type 0 where
  pub entry_key : Text
  pub js_assets : List Text
  pub css_assets : List Text
  pub home_js_gzip_bytes : ℕ
  pub home_css_gzip_bytes : ℕ
  pub all_asset_files : List Text

module _ (gzip_size : Text → ℕ) (manifest : Manifest) where
  abbrev total : List Text → ℕ
  total [] = 0
  total (file ∷ files) = gzip_size file + total files

  abbrev stats_of : Text → Collected → AssetStats
  stats_of entry_key initial_assets = record {
    entry_key = entry_key;
    js_assets = initial_assets.js;
    css_assets = initial_assets.css;
    home_js_gzip_bytes = total initial_assets.js;
    home_css_gzip_bytes = total initial_assets.css;
    all_asset_files = collect_all_asset_files manifest [];
  }

  abbrev stats_at : Text → Option AssetStats
  stats_at entry_key = elim (collect_initial_assets manifest entry_key) [
    | none ↦ none
    | some initial_assets ↦ some (stats_of entry_key initial_assets)
  ]

  -- `none` is the error of `findEntryKey`.
  unfoldable pub build_asset_stats : Option AssetStats
  build_asset_stats = elim (find_entry_key manifest) [
    | none ↦ none
    | some entry_key ↦ stats_at entry_key
  ]

  stats_found :
      (entry_key : Text) (t : Collected)
      → collect_initial_assets manifest entry_key ≡ some t
      → stats_at entry_key ≡ some (stats_of entry_key t)
  stats_found entry_key t e = rw (e, stats_at) refl

  -- If the manifest has a main entry, the statistics are built for it, and every script and style that
  -- they count for the first page is among the files that the audit warms up before it measures;
  -- if it has none, the error is thrown.
  pub build_asset_stats-all :
      ((find_entry_key manifest ≡ none) × (build_asset_stats ≡ none))
      ⊎ ((stats : AssetStats) × (build_asset_stats ≡ some stats)
          × (find_entry_key manifest ≡ some stats.entry_key)
          × ((f : Text) → has f stats.js_assets ≡ true → has f stats.all_asset_files ≡ true)
          × ((f : Text) → has f stats.css_assets ≡ true → has f stats.all_asset_files ≡ true))
  unfolding build_asset_stats
  build_asset_stats-all = elim (Option-cases (find_entry_key manifest)) [
    | inl missing ↦ inl (missing, rw (missing, build_asset_stats) refl)
    | inr (entry_key, found) ↦
        let (t, e, scripts, styles) = initial-all manifest entry_key in
        inr (
          stats_of entry_key t,
          rw (found, build_asset_stats) (stats_found entry_key t e),
          found,
          scripts,
          styles,
        )
  ]
