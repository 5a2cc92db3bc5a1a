-- ===== src/PerfAudit/Assets/All.antt =====
-- All files of the manifest, which the audit fetches before it measures.
use secret_letter.Prelude.{◌≡◌, inl, inr, List, [], ◌∷◌, true, some, arith, ◌⊎◌}
use secret_letter.Text.{Text}
use secret_letter.PerfAudit.Assets.{
  ManifestEntry, Manifest, entry_at, has, add_all, add_option, script_of, Collected,
  collect_initial_assets, collect_all_asset_files,
}
use secret_letter.PerfAudit.Assets.Sets.{has-add_option, has-add_all, text_cases}
use secret_letter.PerfAudit.Assets.Visits.{collect_initial_assets-reached}

-- What an entry puts into the set.
abbrev one_entry : ManifestEntry → List Text → List Text
one_entry entry files = add_all entry.css (add_option entry.file files)

collect_all-keeps :
    (m : Manifest) (files : List Text) (f : Text)
    → has f files ≡ true
    → has f (collect_all_asset_files m files) ≡ true
unfolding collect_all_asset_files
collect_all-keeps [] files f h = h
collect_all-keeps ((k, entry) ∷ m) files f h =
    collect_all-keeps m (one_entry entry files) f
      ((has-add_all f entry.css _).1 (inr ((has-add_option f entry.file files).1 (inr h))))

collect_all-entry :
    (m : Manifest) (files : List Text) (u f : Text) (entry : ManifestEntry)
    → entry_at m u ≡ some entry
    → (entry.file ≡ some f) ⊎ (has f entry.css ≡ true)
    → has f (collect_all_asset_files m files) ≡ true
unfolding entry_at collect_all_asset_files
collect_all-entry [] files u f entry at h = cc
collect_all-entry ((k, other) ∷ m) files u f entry at h = elim (text_cases u k) [
  | inr t ↦ collect_all-entry m (one_entry other files) u f entry (ground arith) h
  | inl (same, t) ↦
      let the_entry : other ≡ entry = ground arith in
      collect_all-keeps m (one_entry other files) f (
        rw the_entry (elim h [
          | inl e ↦
              (has-add_all f entry.css _).1 (inr ((has-add_option f entry.file files).1 (inl e)))
          | inr c ↦ (has-add_all f entry.css _).1 (inl c)
        ]))
]

script-file : (entry : ManifestEntry) (f : Text) → script_of entry ≡ some f → entry.file ≡ some f
script-file entry f h = ground arith

-- Every script and every style that counts for the first page is among the files that the audit warms
-- up before it measures.
pub initial-all :
    (m : Manifest) (entry_key : Text)
    → (t : Collected) × (collect_initial_assets m entry_key ≡ some t)
      × ((f : Text) → has f t.js ≡ true → has f (collect_all_asset_files m []) ≡ true)
      × ((f : Text) → has f t.css ≡ true → has f (collect_all_asset_files m []) ≡ true)
initial-all m entry_key =
    let (t, e, scripts, styles) = collect_initial_assets-reached m entry_key in
    (
      t,
      e,
      λ f h.
          let (u, entry, reach, at, p) = (scripts f).0 h in
          collect_all-entry m [] u f entry at (inl (script-file entry f p)),
      λ f h.
          let (u, entry, reach, at, p) = (styles f).0 h in
          collect_all-entry m [] u f entry at (inr p),
    )
