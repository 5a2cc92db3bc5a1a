-- ===== src/PerfAudit/Assets/Reach.antt =====
-- What chains of imports reach in the manifest, and what a run of `visit` has done.
use secret_letter.Prelude.{
  ℕ, ◌+◌, ◌≤◌, ◌<◌, ◌≡◌, ◌⊎◌, inl, inr, refl, List, [], ◌∷◌, true, false, none, some, arith,
  Bool-cases, length, if◌then◌else◌, sym,
}
use secret_letter.Text.{Text}
use secret_letter.PerfAudit.Assets.{
  ManifestEntry, Manifest, entry_at, has, add, Collected, mark, collect_files,
}
use secret_letter.PerfAudit.Assets.Sets.{text_cases, has-cons, has-add}

-- The keys that a chain of imports reaches from some roots.
pub data Reach (m : Manifest) (roots : List Text) : Text → Type 0 where
  root : {k : Text} → has k roots ≡ true → Reach m roots k
  import_of :
      {k v : Text} {entry : ManifestEntry}
      → Reach m roots k
      → entry_at m k ≡ some entry
      → has v entry.imports ≡ true
      → Reach m roots v

pub Reach-trans :
    {m : Manifest} {roots others : List Text}
    → ((k : Text) → has k roots ≡ true → Reach m others k)
    → {v : Text} → Reach m roots v
    → Reach m others v
Reach-trans f (root h) = f _ h
Reach-trans f (import_of r e h) = import_of (Reach-trans f r) e h

-- The keys of the manifest that are still to be visited.
abbrev pub unvisited : Manifest → List Text → ℕ
unvisited [] visited = 0
unvisited ((k, entry) ∷ m) visited = (if has k visited then 0 else 1) + unvisited m visited

pub unvisited_mono :
    (m : Manifest) (v w : List Text)
    → ((x : Text) → has x v ≡ true → has x w ≡ true)
    → unvisited m w ≤ unvisited m v
unvisited_mono [] v w h = omega arith
unvisited_mono ((k, entry) ∷ m) v w h = ground (arith, h k, unvisited_mono m v w h)

pub unvisited-add :
    (m : Manifest) (k : Text) (v : List Text) (entry : ManifestEntry)
    → entry_at m k ≡ some entry
    → has k v ≡ false
    → unvisited m (add k v) < unvisited m v
unfolding entry_at
unvisited-add [] k v entry e h = cc
unvisited-add ((j, other) ∷ m) k v entry e h =
    let grows = λ (x : Text) (p : has x v ≡ true). (has-add x k v).1 (inr p) in
    elim (text_cases k j) [
      | inl (same, t) ↦
          let now = (has-add j k v).1 (inl (sym same)) in
          ground (arith, unvisited_mono m v (add k v) grows)
      | inr t ↦ ground (arith, unvisited-add m k v entry, grows j)
    ]

pub unvisited-le-length : (m : Manifest) (v : List Text) → unvisited m v ≤ length m
unvisited-le-length [] v = omega arith
unvisited-le-length ((k, entry) ∷ m) v = ground (arith, unvisited-le-length m v)

fresh-add : (u k : Text) (v : List Text) → has u v ≡ false → (u ≡ k) ⊎ (has u (add k v) ≡ false)
fresh-add u k v h = elim (Bool-cases (has u (add k v))) [
  | inr e ↦ inr e
  | inl e ↦ elim ((has-add u k v).0 e) [ inl same ↦ inl same | inr old ↦ cc ]
]

module _ (m : Manifest) where
  -- From `s` to `t` the calls of `visit` for `keys` have been made.
  pub record Run (keys : List Text) (s t : Collected) : Type 0 where
    pub grows : (x : Text) → has x s.visited ≡ true → has x t.visited ≡ true
    pub covers : (x : Text) → has x keys ≡ true → has x t.visited ≡ true
    pub closed :
        (u v : Text) (entry : ManifestEntry)
        → has u t.visited ≡ true
        → has u s.visited ≡ false
        → entry_at m u ≡ some entry
        → has v entry.imports ≡ true
        → has v t.visited ≡ true
    pub sound : (u : Text) → has u t.visited ≡ true → (has u s.visited ≡ true) ⊎ Reach m keys u

  pub nothing-Run : (s : Collected) → Run [] s s
  unfolding has
  nothing-Run s = record {
    grows = λ x h. h;
    covers = λ x h. cc;
    closed = λ u v entry h n e i. cc;
    sound = λ u h. inl h;
  }

  pub visited-Run :
      {key : Text} {keys : List Text} {s t : Collected}
      → has key s.visited ≡ true
      → Run keys s t
      → Run (key ∷ keys) s t
  visited-Run {key} {keys} h r = record {
    grows = r.grows;
    covers = λ x k. elim ((has-cons x key keys).0 k) [
      | inl e ↦ r.grows x (rw e h)
      | inr i ↦ r.covers x i
    ];
    closed = r.closed;
    sound = λ u k. elim (r.sound u k) [
      | inl old ↦ inl old
      | inr reach ↦ inr (Reach-trans (λ x i. root ((has-cons x key keys).1 (inr i))) reach)
    ];
  }

  pub missing-Run :
      {key : Text} {keys : List Text} {s t : Collected}
      → entry_at m key ≡ none
      → Run keys (mark key s) t
      → Run (key ∷ keys) s t
  missing-Run {key} {keys} {s} {t} e r = record {
    grows = λ x k. r.grows x ((has-add x key s.visited).1 (inr k));
    covers = λ x k. elim ((has-cons x key keys).0 k) [
      | inl same ↦ r.grows x ((has-add x key s.visited).1 (inl same))
      | inr i ↦ r.covers x i
    ];
    closed = λ u v entry now before at i. elim (fresh-add u key s.visited before) [
      | inl same ↦ cc
      | inr new ↦ r.closed u v entry now new at i
    ];
    sound = λ u k. elim (r.sound u k) [
      | inl old ↦ elim ((has-add u key s.visited).0 old) [
        | inl same ↦ inr (root ((has-cons u key keys).1 (inl same)))
        | inr older ↦ inl older
      ]
      | inr reach ↦ inr (Reach-trans (λ x i. root ((has-cons x key keys).1 (inr i))) reach)
    ];
  }

  pub entered-Run :
      {key : Text} {keys : List Text} {entry : ManifestEntry} {s t r : Collected}
      → entry_at m key ≡ some entry
      → Run entry.imports (collect_files entry (mark key s)) t
      → Run keys t r
      → Run (key ∷ keys) s r
  entered-Run {key} {keys} {entry} {s} {t} {r} e a b = record {
    grows = λ x k. b.grows x (a.grows x ((has-add x key s.visited).1 (inr k)));
    covers = λ x k. elim ((has-cons x key keys).0 k) [
      | inl same ↦ b.grows x (a.grows x ((has-add x key s.visited).1 (inl same)))
      | inr i ↦ b.covers x i
    ];
    closed = λ u v other now before at i. elim (Bool-cases (has u t.visited)) [
      | inr new ↦ b.closed u v other now new at i
      | inl old ↦ elim (fresh-add u key s.visited before) [
        | inl same ↦
            let the_entry : other ≡ entry = cc in b.grows v (a.covers v (rw (← the_entry) i))
        | inr new ↦ b.grows v (a.closed u v other old new at i)
      ]
    ];
    sound = λ u k.
        let from_key : Reach m (key ∷ keys) key = root ((has-cons key key keys).1 (inl refl)) in
        elim (b.sound u k) [
          | inr reach ↦ inr (Reach-trans (λ x i. root ((has-cons x key keys).1 (inr i))) reach)
          | inl earlier ↦ elim (a.sound u earlier) [
            | inr reach ↦ inr (Reach-trans (λ x i. import_of from_key e i) reach)
            | inl old ↦ elim ((has-add u key s.visited).0 old) [
              | inl same ↦ inr (rw same from_key)
              | inr older ↦ inl older
            ]
          ]
        ];
  }
