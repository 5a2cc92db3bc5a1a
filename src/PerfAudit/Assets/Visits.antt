-- ===== src/PerfAudit/Assets/Visits.antt =====
-- The calls of `visit` end, and what they collect.
use secret_letter.Prelude.{
  ℕ, zero, suc, ◌<◌, ◌≡◌, ◌↔◌, inl, inr, refl, List, [], ◌∷◌, true, some, arith, Bool-cases,
  Option-cases, length,
}
use secret_letter.Text.{Text}
use secret_letter.PerfAudit.Assets.{
  ManifestEntry, Manifest, entry_at, has, Collected, mark, collect_files, visit_all,
  nothing_collected, collect_initial_assets, dynamic_keys,
}
use secret_letter.PerfAudit.Assets.Sets.{has-add}
use secret_letter.PerfAudit.Assets.Reach.{
  Reach, root, import_of, unvisited, unvisited_mono, unvisited-add, unvisited-le-length, Run,
  nothing-Run, visited-Run, missing-Run, entered-Run,
}
use secret_letter.PerfAudit.Assets.Files.{
  Filed, IsScript, IsStyle, IsFiled, mark-IsFiled, collect-IsFiled, nothing-IsFiled,
}

iff_trans : {A B C : Type 0} → A ↔ B → B ↔ C → A ↔ C
iff_trans f g = (λ a. g.0 (f.0 a), λ c. f.1 (g.1 c))

module _ (m : Manifest) where
  -- Enough fuel, and what the calls then give.
  pub visit_all-Run :
      (fuel : ℕ) (keys : List Text) (s : Collected)
      → unvisited m s.visited < fuel
      → IsFiled m s
      → (t : Collected) × (visit_all m fuel keys s ≡ some t) × Run m keys s t × IsFiled m t
  unfolding visit_all
  visit_all-Run fuel [] s enough filed = (s, refl, nothing-Run m s, filed)
  visit_all-Run zero (key ∷ keys) s enough filed = absurd (omega arith)
  visit_all-Run (suc fuel) (key ∷ keys) s enough filed = elim (Bool-cases (has key s.visited)) [
    | inl old ↦
        let (t, e, run, after) = visit_all-Run (suc fuel) keys s enough filed in
        (t, rw (old, visit_all) e, visited-Run m old run, after)
    | inr new ↦ elim (Option-cases (entry_at m key)) [
      | inl missing ↦
          let less =
            unvisited_mono m s.visited (mark key s).visited
              (λ x k. (has-add x key s.visited).1 (inr k)) in
          let (t, e, run, after) =
            visit_all-Run (suc fuel) keys (mark key s) (omega arith)
              (mark-IsFiled m key missing filed) in
          (t, rw (new, missing, visit_all) e, missing-Run m missing run, after)
      | inr (entry, found) ↦
          let fewer = unvisited-add m key s.visited entry found new in
          let (t, e, a, mid) =
            visit_all-Run fuel entry.imports (collect_files entry (mark key s)) (omega arith)
              (collect-IsFiled m key found filed) in
          let less = unvisited_mono m (mark key s).visited t.visited a.grows in
          let (r, f, b, after) = visit_all-Run (suc fuel) keys t (omega arith) mid in
          (r, rw (new, found, e, visit_all) f, entered-Run m found a b, after)
    ]
  ]

  -- The visited keys are closed under imports.
  reached-visited :
      {keys : List Text} {t : Collected}
      → Run m keys nothing_collected t
      → {u : Text} → Reach m keys u
      → has u t.visited ≡ true
  unfolding has
  reached-visited run (root h) = run.covers _ h
  reached-visited run (import_of r e i) = run.closed _ _ _ (reached-visited run r) refl e i

  -- A key from which a file is counted.
  abbrev pub Provides : (ManifestEntry → Text → Type 0) → List Text → Text → Type 0
  Provides P keys f =
      (u : Text) × (entry : ManifestEntry) × Reach m keys u
      × (entry_at m u ≡ some entry)
      × P entry f

  visited-Provides :
      (P : ManifestEntry → Text → Type 0) {keys : List Text} {t : Collected} (f : Text)
      → Run m keys nothing_collected t
      → Filed m P t.visited f ↔ Provides P keys f
  unfolding has
  visited-Provides P f run = (
    λ (u, entry, h, at, p). elim (run.sound u h) [
      | inl old ↦ cc
      | inr reach ↦ (u, entry, reach, at, p)
    ],
    λ (u, entry, reach, at, p). (u, entry, reached-visited run reach, at, p),
  )

  -- The collection of the initial assets ends for every manifest, cyclic imports and missing keys
  -- included. Its scripts are the `.js` files, and its styles the style files, of exactly the entries that
  -- some chain of imports reaches from the main entry or from one of its dynamic imports that is no
  -- page.
  pub collect_initial_assets-reached :
      (entry_key : Text)
      → (t : Collected) × (collect_initial_assets m entry_key ≡ some t)
        × ((f : Text)
            → (has f t.js ≡ true) ↔ Provides (IsScript m) (entry_key ∷ dynamic_keys m entry_key) f)
        × ((f : Text)
            → (has f t.css ≡ true) ↔ Provides (IsStyle m) (entry_key ∷ dynamic_keys m entry_key) f)
  unfolding collect_initial_assets
  collect_initial_assets-reached entry_key =
      let few = unvisited-le-length m [] in
      let (t, e, run, filed) =
        visit_all-Run (suc (length m)) (entry_key ∷ dynamic_keys m entry_key) nothing_collected
          (omega arith) (nothing-IsFiled m) in
      (
        t,
        e,
        λ f. iff_trans (filed.scripts f) (visited-Provides (IsScript m) f run),
        λ f. iff_trans (filed.styles f) (visited-Provides (IsStyle m) f run),
      )
