-- ===== src/PerfAudit/Main/Laws.antt =====
-- What the audit leaves running, and when it passes.
use secret_letter.Prelude.{
  ℕ, ◌≤◌, ◌≡◌, ◌↔◌, refl, List, [], ◌∷◌, Bool, true, false, ◌||◌, ◌&&◌, not, all, All, all→All,
  All→all, and-eq-true, leb, arith, Option, none, some,
}
use secret_letter.Prelude.{◌++◌, ◌==◌, ==_iff, Bool-cases, inl, inr, ap, ◌∙◌, sym}
use secret_letter.Text.{Text, units, starts_with}
use secret_letter.Effects.{preview, browser, is_live}
use secret_letter.PerfAudit.Main.{
  Outcomes, measure, main, Measured, Budget, within, includes_option, font_blocked_plaintext,
  budgets, failed_budgets, exit_code, includes,
}

-- The browser was launched and a measurement threw.
abbrev pub browser_is_stuck : Outcomes → Bool
browser_is_stuck o =
    o.assets_built
    && o.port_found
    && o.preview_ready
    && o.home_browser_launches
    && (not o.home_measured || o.reveal_browser_launches && not o.reveal_measured)

-- Whatever throws, the audit kills the command `npm run preview` that it started; a browser is left running exactly
-- if one of its measurements throws.
pub main-stops :
    (o : Outcomes)
    → (is_live preview false (main o).0 ≡ false)
      × (is_live browser false (main o).0 ≡ browser_is_stuck o)
unfolding main measure is_live
main-stops o = (ground arith, ground arith)

abbrev pub IsWithin : Option ℕ → ℕ → Type 0
IsWithin o limit = (n : ℕ) × (o ≡ some n) × (n ≤ limit)

-- The text of the scenario without fonts stands somewhere in what the page shows.
abbrev pub IsShown : Option Text → Type 0
IsShown shown =
    (front back : Text) × (shown ≡ some (front ++ units "Tin kiem thu font-blocked" ++ back))

pub record MeetsTargets (m : Measured) : Type 0 where
  pub home_js : m.home_js_gzip_bytes ≤ 102400
  pub home_fcp : IsWithin m.home_desktop_fcp_ms 1000
  pub mobile_fcp : IsWithin m.home_mobile_fcp_ms 1800
  pub requests : m.home_desktop_request_count ≤ 4
  pub qr_is_lazy : 1 ≤ m.qr_new_script_requests
  pub sealed_soon : IsWithin m.slow_status_to_sealed_ms 1700
  pub revealed_soon : IsWithin m.slow_open_to_revealed_ms 1700
  pub offline_shown : m.offline_status_error ≡ true
  pub failure_shown : m.server_error_status_error ≡ true
  pub failure_soon : IsWithin m.server_error_open_to_error_ms 1150
  pub fonts_optional : IsShown m.font_blocked_text

within_iff : (o : Option ℕ) (limit : ℕ) → (within o limit ≡ true) ↔ IsWithin o limit
within_iff none limit = (λ h. cc, λ (n, e, k). cc)
within_iff (some n) limit = (λ h. (n, refl, ground arith), λ (k, e, l). ground arith)

-- The exit code for the failed ones of some budgets.
abbrev code_of : List Budget → ℕ
code_of failed = elim failed [ [] ↦ 0 | _ ∷ _ ↦ 1 ]

passed_budgets :
    (bs : List Budget) → (code_of (failed_budgets bs) ≡ 0) ↔ (all (λ b. b.passed) bs ≡ true)
unfolding failed_budgets
passed_budgets [] = (λ _. refl, λ _. refl)
passed_budgets (b ∷ bs) = let ih = passed_budgets bs in (λ h. ground arith, λ h. ground arith)

leb_iff : (a b : ℕ) → (leb a b ≡ true) ↔ (a ≤ b)
leb_iff a b = ground arith

some_text : {s t : Text} → ◌≡◌ {A = Option Text} (some s) (some t) → s ≡ t
some_text h = cc

starts_with_split : (part s : Text) → starts_with part s ≡ true → (back : Text) × (s ≡ part ++ back)
unfolding starts_with
starts_with_split [] s h = (s, refl)
starts_with_split (c ∷ part) [] h = cc
starts_with_split (c ∷ part) (d ∷ s) h =
    let (here, later) = and-eq-true (c == d) (starts_with part s) h in
    let (back, e) = starts_with_split part s later in
    let same = (==_iff c d).0 here in (back, ap (λ u. u ∷ s) (sym same) ∙ ap (λ t. c ∷ t) e)

starts_with-append : (part back : Text) → starts_with part (part ++ back) ≡ true
unfolding starts_with
starts_with-append [] back = refl
starts_with-append (c ∷ part) back = ground (arith, starts_with-append part back)

includes_split :
    (part s : Text) → includes part s ≡ true → (front back : Text) × (s ≡ front ++ part ++ back)
unfolding includes
includes_split part [] h = let (back, e) = starts_with_split part [] h in ([], back, e)
includes_split part (c ∷ s) h = elim (Bool-cases (starts_with part (c ∷ s))) [
  | inl here ↦ let (back, e) = starts_with_split part (c ∷ s) here in ([], back, e)
  | inr other ↦
      let later : includes part s ≡ true = rw (other, includes) at h in
      let (front, back, e) = includes_split part s later in (c ∷ front, back, ap (λ t. c ∷ t) e)
]

includes-append : (front part back : Text) → includes part (front ++ part ++ back) ≡ true
unfolding includes
includes-append [] [] [] = unfold starts_with in refl
includes-append [] [] (c ∷ back) = unfold starts_with in refl
includes-append [] (c ∷ part) back = rw (starts_with-append (c ∷ part) back, includes) refl
includes-append (c ∷ front) part back = ground (arith, includes-append front part back)

font_text_iff :
    (shown : Option Text) → (includes_option font_blocked_plaintext shown ≡ true) ↔ IsShown shown
unfolding font_blocked_plaintext
font_text_iff none = (λ h. cc, λ (front, back, e). cc)
font_text_iff (some s) = (
  λ h. let (front, back, e) = includes_split font_blocked_plaintext s h in (front, back, ap some e),
  λ (front, back, e).
      let same : s ≡ front ++ units "Tin kiem thu font-blocked" ++ back = some_text e in
      rw same (includes-append front (units "Tin kiem thu font-blocked") back),
)

targets_met : (m : Measured) → All (λ b. b.passed ≡ true) (budgets m) → MeetsTargets m
unfolding budgets
targets_met m
      (
        js,
        (fcp, (mobile, (requests, (qr, (sealed, (revealed, (offline, (failure, (fonts, _))))))))),
      ) =
    let (failed, soon) =
      and-eq-true m.server_error_status_error (within m.server_error_open_to_error_ms 1150)
        failure in
    record {
      home_js = (leb_iff _ _).0 js;
      home_fcp = (within_iff _ _).0 fcp;
      mobile_fcp = (within_iff _ _).0 mobile;
      requests = (leb_iff _ _).0 requests;
      qr_is_lazy = (leb_iff _ _).0 qr;
      sealed_soon = (within_iff _ _).0 sealed;
      revealed_soon = (within_iff _ _).0 revealed;
      offline_shown = offline;
      failure_shown = failed;
      failure_soon = (within_iff _ _).0 soon;
      fonts_optional = (font_text_iff _).0 fonts;
    }

targets_pass : (m : Measured) → MeetsTargets m → All (λ b. b.passed ≡ true) (budgets m)
unfolding budgets
targets_pass m t =
    let soon = (within_iff m.server_error_open_to_error_ms 1150).1 t.failure_soon in
    let failed : (m.server_error_status_error && within m.server_error_open_to_error_ms 1150)
        ≡ true =
      rw (t.failure_shown, soon) refl in
    (
      (leb_iff _ _).1 t.home_js,
      (
        (within_iff _ _).1 t.home_fcp,
        (
          (within_iff _ _).1 t.mobile_fcp,
          (
            (leb_iff _ _).1 t.requests,
            (
              (leb_iff _ _).1 t.qr_is_lazy,
              (
                (within_iff _ _).1 t.sealed_soon,
                (
                  (within_iff _ _).1 t.revealed_soon,
                  (t.offline_shown, (failed, ((font_text_iff _).1 t.fonts_optional, tt))),
                ),
              ),
            ),
          ),
        ),
      ),
    )

-- The audit sets no exit code exactly if all its targets are met: the sizes, times and counts are there and within
-- their limits, the error pages were shown, and the text was shown without fonts.
pub exit_code-zero : (m : Measured) → (exit_code m ≡ 0) ↔ MeetsTargets m
unfolding exit_code
exit_code-zero m =
    let (passes, codes) = passed_budgets (budgets m) in
    (
      λ h. targets_met m (all→All (λ b. b.passed) (budgets m) (passes h)),
      λ t. codes (All→all (λ b. b.passed) (budgets m) (targets_pass m t)),
    )
