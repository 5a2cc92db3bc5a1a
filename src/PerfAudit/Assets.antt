-- ===== src/PerfAudit/Assets.antt =====
-- The assets that frontend/web-app/scripts/perf-audit.mjs finds in the manifest of the build.
pub mod Sets
pub mod Reach
pub mod Files
pub mod Visits
pub mod All
pub mod Stats
use secret_letter.Prelude.{
  ℕ, zero, suc, List, [], ◌∷◌, ◌++◌, Bool, true, false, ◌&&◌, ◌||◌, not, Option, none, some,
  if◌then◌else◌, length,
}
use secret_letter.Text.{Text, units, text_eq, starts_with, ends_with}

-- An entry of the manifest; a list that is missing is `?? []`, and a file that is empty counts as missing.
pub record ManifestEntry : Type 0 where
  pub file : Option Text
  pub is_entry : Bool
  pub src : Option Text
  pub css : List Text
  pub imports : List Text
  pub dynamic_imports : List Text

-- The parsed object, in the order of its keys.
abbrev pub Manifest : Type 0
Manifest = List (Text × ManifestEntry)

-- `manifest[key]`
unfoldable pub entry_at : Manifest → Text → Option ManifestEntry
entry_at [] key = none
entry_at ((k, entry) ∷ manifest) key = if text_eq key k then some entry else entry_at manifest key

-- A `Set` of texts, in the order of insertion.
unfoldable pub has : Text → List Text → Bool
has x [] = false
has x (y ∷ ys) = text_eq x y || has x ys

unfoldable pub add : Text → List Text → List Text
unfolding has
add x xs = if has x xs then xs else xs ++ x ∷ []

abbrev pub add_all : List Text → List Text → List Text
add_all [] xs = xs
add_all (y ∷ ys) xs = add_all ys (add y xs)

abbrev ends_with_option : Option Text → Text → Bool
ends_with_option none suffix = false
ends_with_option (some s) suffix = ends_with suffix s

-- The first entry whose `src` has this end.
unfoldable pub find_key : Text → Manifest → Option Text
find_key suffix [] = none
find_key suffix ((key, entry) ∷ manifest) =
    if entry.is_entry && ends_with_option entry.src suffix
    then some key
    else find_key suffix manifest

abbrev or_find : Option Text → Option Text → Option Text
or_find none later = later
or_find (some key) later = some key

-- `none` is the error that is thrown.
unfoldable pub find_entry_key : Manifest → Option Text
unfolding find_key
find_entry_key manifest =
    let later =
      or_find (find_key (units "src/main.tsx") manifest) (find_key (units "main.tsx") manifest) in
    elim (entry_at manifest (units "index.html")) [
      | none ↦ later
      | some entry ↦ if entry.is_entry then some (units "index.html") else later
    ]

-- The three sets that `visit` fills.
pub record Collected : Type 0 where
  pub visited : List Text
  pub js : List Text
  pub css : List Text

abbrev pub nothing_collected : Collected
nothing_collected = record { visited = []; js = []; css = [] }

abbrev pub script_of : ManifestEntry → Option Text
script_of entry = elim entry.file [
  | none ↦ none
  | some file ↦ if ends_with (units ".js") file then some file else none
]

abbrev pub add_option : Option Text → List Text → List Text
add_option none xs = xs
add_option (some x) xs = add x xs

abbrev pub mark : Text → Collected → Collected
mark key s = record s { visited = add key s.visited }

abbrev pub collect_files : ManifestEntry → Collected → Collected
collect_files entry s = record s {
  js = add_option (script_of entry) s.js;
  css = add_all entry.css s.css;
}

-- `visit` for each of some keys in turn; the fuel is the depth of the calls, and `none` means that it
-- ran out.
unfoldable pub visit_all : Manifest → ℕ → List Text → Collected → Option Collected
visit_all manifest fuel [] s = some s
visit_all manifest zero (key ∷ keys) s = none
visit_all manifest (suc fuel) (key ∷ keys) s = elim (has key s.visited) [
  | true ↦ visit_all manifest (suc fuel) keys s
  | false ↦ elim (entry_at manifest key) [
    | none ↦ visit_all manifest (suc fuel) keys (mark key s)
    | some entry ↦ elim (visit_all manifest fuel entry.imports (collect_files entry (mark key s))) [
      | none ↦ none
      | some s' ↦ visit_all manifest (suc fuel) keys s'
    ]
  ]
]

-- The dynamic imports that count as initial: none of the pages.
unfoldable pub initial_keys : List Text → List Text
initial_keys [] = []
initial_keys (key ∷ keys) =
    let rest = initial_keys keys in
    if starts_with (units "src/pages/") key then rest else key ∷ rest

abbrev pub dynamic_keys : Manifest → Text → List Text
dynamic_keys manifest entry_key = elim (entry_at manifest entry_key) [
  | none ↦ []
  | some entry ↦ initial_keys entry.dynamic_imports
]

-- More fuel than the manifest has keys.
unfoldable pub collect_initial_assets : Manifest → Text → Option Collected
unfolding visit_all
collect_initial_assets manifest entry_key =
    visit_all manifest (suc (length manifest)) (entry_key ∷ dynamic_keys manifest entry_key)
      nothing_collected

unfoldable pub collect_all_asset_files : Manifest → List Text → List Text
collect_all_asset_files [] files = files
collect_all_asset_files ((key, entry) ∷ manifest) files =
    collect_all_asset_files manifest (add_all entry.css (add_option entry.file files))
