-- ===== src/PerfAudit/Assets/Files.antt =====
-- The files of the visited keys.
use secret_letter.Prelude.{◌≡◌, ◌↔◌, ◌⊎◌, inl, inr, refl, List, true, none, some, subst}
use secret_letter.Text.{Text}
use secret_letter.PerfAudit.Assets.{
  ManifestEntry, Manifest, entry_at, has, add, Collected, script_of, mark, collect_files,
  nothing_collected,
}
use secret_letter.PerfAudit.Assets.Sets.{has-add_option, has-add, has-add_all}

module _ (m : Manifest) where
  -- A visited key whose entry provides the file.
  abbrev pub Filed : (ManifestEntry → Text → Type 0) → List Text → Text → Type 0
  Filed P visited f =
      (u : Text) × (entry : ManifestEntry) × (has u visited ≡ true)
      × (entry_at m u ≡ some entry)
      × P entry f

  abbrev pub IsScript : ManifestEntry → Text → Type 0
  IsScript entry f = script_of entry ≡ some f

  abbrev pub IsStyle : ManifestEntry → Text → Type 0
  IsStyle entry f = has f entry.css ≡ true

  -- The sets hold the files of the visited keys.
  pub record IsFiled (s : Collected) : Type 0 where
    pub scripts : (f : Text) → (has f s.js ≡ true) ↔ Filed IsScript s.visited f
    pub styles : (f : Text) → (has f s.css ≡ true) ↔ Filed IsStyle s.visited f

  Filed-skip :
      (P : ManifestEntry → Text → Type 0) (key : Text) (v : List Text) (f : Text)
      → entry_at m key ≡ none
      → Filed P (add key v) f ↔ Filed P v f
  Filed-skip P key v f e = (
    λ (u, entry, h, at, p). elim ((has-add u key v).0 h) [
      | inl same ↦ cc
      | inr old ↦ (u, entry, old, at, p)
    ],
    λ (u, entry, h, at, p). (u, entry, (has-add u key v).1 (inr h), at, p),
  )

  Filed-add :
      (P : ManifestEntry → Text → Type 0) (key : Text) (v : List Text) (f : Text)
      (new : ManifestEntry)
      → entry_at m key ≡ some new
      → Filed P (add key v) f ↔ (P new f ⊎ Filed P v f)
  Filed-add P key v f new e = (
    λ (u, entry, h, at, p). elim ((has-add u key v).0 h) [
      | inl same ↦ let the_entry : entry ≡ new = cc in inl (subst (λ x. P x f) the_entry p)
      | inr old ↦ inr (u, entry, old, at, p)
    ],
    λ h. elim h [
      | inl p ↦ (key, new, (has-add key key v).1 (inl refl), e, p)
      | inr (u, entry, old, at, p) ↦ (u, entry, (has-add u key v).1 (inr old), at, p)
    ],
  )

  pub mark-IsFiled :
      (key : Text) {s : Collected} → entry_at m key ≡ none → IsFiled s → IsFiled (mark key s)
  mark-IsFiled key {s} e h = record {
    scripts = λ f.
        let skip = Filed-skip IsScript key s.visited f e in
        (λ k. skip.1 ((h.scripts f).0 k), λ k. (h.scripts f).1 (skip.0 k));
    styles = λ f.
        let skip = Filed-skip IsStyle key s.visited f e in
        (λ k. skip.1 ((h.styles f).0 k), λ k. (h.styles f).1 (skip.0 k));
  }

  pub collect-IsFiled :
      (key : Text) {entry : ManifestEntry} {s : Collected}
      → entry_at m key ≡ some entry
      → IsFiled s
      → IsFiled (collect_files entry (mark key s))
  collect-IsFiled key {entry} {s} e h = record {
    scripts = λ f.
        let new = Filed-add IsScript key s.visited f entry e in
        let added = has-add_option f (script_of entry) s.js in
        (
          λ k. new.1 (elim (added.0 k) [ inl p ↦ inl p | inr old ↦ inr ((h.scripts f).0 old) ]),
          λ k. added.1 (elim (new.0 k) [ inl p ↦ inl p | inr old ↦ inr ((h.scripts f).1 old) ]),
        );
    styles = λ f.
        let new = Filed-add IsStyle key s.visited f entry e in
        let added = has-add_all f entry.css s.css in
        (
          λ k. new.1 (elim (added.0 k) [ inl p ↦ inl p | inr old ↦ inr ((h.styles f).0 old) ]),
          λ k. added.1 (elim (new.0 k) [ inl p ↦ inl p | inr old ↦ inr ((h.styles f).1 old) ]),
        );
  }

  pub nothing-IsFiled : IsFiled nothing_collected
  unfolding has
  nothing-IsFiled = record {
    scripts = λ f. (λ h. cc, λ h. let (u, entry, k, at, p) = h in cc);
    styles = λ f. (λ h. cc, λ h. let (u, entry, k, at, p) = h in cc);
  }
