-- ===== src/Backend/Validation/Rules.antt =====
-- Which requests pass the validation of the server.
use mathlib.Core.Bool.{true≢false}
use secret_letter.Prelude.{
  sym, ◌||◌, ◌==◌, ==_iff, Bool-cases, inl, inr, if◌then◌else◌, ℕ, suc, ◌+◌, ◌*◌, ◌/◌, ◌%◌, ◌≤◌,
  ◌≡◌, ◌≢◌, ◌⊎◌, ◌↔◌, refl, ap, ap₂, ◌∙◌, List, [], ◌∷◌, ◌++◌, Bool, true, false, Option, none,
  some, arith, length, all, and-eq-true,
}
use secret_letter.Text.{Text, units, text_eq}
use secret_letter.Base64Url.{is_base64_url_char}
use secret_letter.Backend.Validation.{
  CreateSecretRequest, ValidationError, validate_create_secret_request, ttl_errors, nonce_errors,
  burn_errors, sealed_errors, content_errors, ciphertext_errors, decoded_length, digits_loop,
  without_breaks,
}

abbrev pub IsLimited : CreateSecretRequest → Type 0
IsLimited req =
    ((req.ttl_seconds ≡ 3600) ⊎ ((req.ttl_seconds ≡ 86400) ⊎ (req.ttl_seconds ≡ 604800)))
    ⊎ ((req.ttl_seconds ≡ 0)
        × ((req.expires_in_minutes ≡ 60)
            ⊎ ((req.expires_in_minutes ≡ 1440) ⊎ (req.expires_in_minutes ≡ 10080))))

-- Go's decoder passes over line breaks, but the padding is reckoned with them.
abbrev is_break : ℕ → Bool
is_break c = c == 10 || c == 13

abbrev pub digit_count : Text → ℕ
digit_count [] = 0
digit_count (c ∷ s) = if is_base64_url_char c then suc (digit_count s) else digit_count s

-- Sixteen digits, and between them line breaks, of which the number has the remainder zero or one by four.
abbrev pub IsNonce : Text → Type 0
IsNonce s =
    (all (λ c. is_base64_url_char c || is_break c) s ≡ true)
    × (digit_count s ≡ 16)
    × (length s % 4 ≤ 1)

-- The rules that the endpoint keeps to.
pub record IsAllowed (req : CreateSecretRequest) : Type 0 where
  pub limited : IsLimited req
  pub no_plaintext : req.content ≡ []
  pub sealed : req.ciphertext ≢ []
  pub burns : req.burn_after_read ≢ some false
  pub algorithm : text_eq req.algorithm (units "AES-GCM") ≡ true
  pub small : length req.ciphertext ≤ 15360
  pub nonce : IsNonce req.nonce

digits_loop-all :
    (n : ℕ) (s : Text)
    → all is_base64_url_char s ≡ true
    → (n + length s) % 4 ≡ 0
    → digits_loop n s ≡ some ((n + length s) * 3 / 4)
unfolding digits_loop
digits_loop-all n [] h k = ground (arith, k)
digits_loop-all n (c ∷ s) h k =
    let (own, later) = and-eq-true (is_base64_url_char c) (all is_base64_url_char s) h in
    let ih = digits_loop-all (suc n) s later (omega (arith, k)) in
    rw own (ih ∙ ap (λ m. some (m * 3 / 4)) (omega arith))

without_breaks-all : (s : Text) → all is_base64_url_char s ≡ true → without_breaks s ≡ s
unfolding without_breaks is_base64_url_char
without_breaks-all [] h = refl
without_breaks-all (c ∷ s) h =
    let (own, later) = and-eq-true (is_base64_url_char c) (all is_base64_url_char s) h in
    let ih = without_breaks-all s later in ground (arith, ih, own)

-- A text of sixteen digits is decoded to twelve bytes.
pub decoded_length-sixteen :
    (s : Text) → all is_base64_url_char s ≡ true → length s ≡ 16 → decoded_length s ≡ some 12
unfolding decoded_length
decoded_length-sixteen s h k =
    rw (k, without_breaks-all s h, digits_loop-all 0 s h (omega (arith, k)), k) refl

some_nat : {a b : ℕ} → ◌≡◌ {A = Option ℕ} (some a) (some b) → a ≡ b
some_nat h = cc

-- Twelve bytes come of sixteen digits and no padding.
digits_loop-twelve :
    (n : ℕ) (s : Text)
    → digits_loop n s ≡ some 12
    → (all is_base64_url_char s ≡ true) × (n + length s ≡ 16)
unfolding digits_loop
digits_loop-twelve n [] h = elim (Bool-cases (n % 4 == 0)) [
  | inl even ↦
      let twelve : n * 3 / 4 ≡ 12 = some_nat (rw even at h) in
      (refl, omega (arith, (==_iff (n % 4) 0).0 even))
  | inr odd ↦ ground (arith, h, odd)
]
digits_loop-twelve n (c ∷ s) h = elim (Bool-cases (is_base64_url_char c)) [
  | inl own ↦
      let (later, count) = digits_loop-twelve (suc n) s (rw own at h) in
      (rw own later, omega (arith, count))
  | inr other ↦ absurd (ground (arith, h))
]

not_digits : (s t : Text) → all is_base64_url_char (s ++ b'=' ∷ t) ≡ false
unfolding is_base64_url_char
not_digits [] t = refl
not_digits (c ∷ s) t = ground (arith, not_digits s t)

without_breaks-append :
    (s t : Text) → without_breaks (s ++ t) ≡ without_breaks s ++ without_breaks t
unfolding without_breaks
without_breaks-append [] t = refl
without_breaks-append (c ∷ s) t = elim (Bool-cases (is_break c)) [
  | inl skip ↦ rw (skip, without_breaks) (without_breaks-append s t)
  | inr keep ↦ rw (keep, without_breaks) (ap (λ u. c ∷ u) (without_breaks-append s t))
]

-- Padding that is added makes no nonce.
padded_fails : (s t : Text) → digits_loop 0 (without_breaks (s ++ b'=' ∷ t)) ≢ some 12
unfolding without_breaks
padded_fails s t h =
    let (digits, _) = digits_loop-twelve 0 (without_breaks (s ++ b'=' ∷ t)) h in
    let split : without_breaks (s ++ b'=' ∷ t) ≡ without_breaks s ++ b'=' ∷ without_breaks t =
      without_breaks-append s (b'=' ∷ t) in
    absurd (
      true≢false (
        sym digits
        ∙ ap (all is_base64_url_char) split
        ∙ not_digits (without_breaks s) (without_breaks t)))

digits_kept :
    (s : Text)
    → (all (λ c. is_base64_url_char c || is_break c) s ≡ all is_base64_url_char (without_breaks s))
      × (digit_count s ≤ length (without_breaks s))
      × (all is_base64_url_char (without_breaks s) ≡ true
          → digit_count s ≡ length (without_breaks s))
unfolding without_breaks is_base64_url_char
digits_kept [] = (refl, omega arith, λ h. refl)
digits_kept (c ∷ s) =
    let (same, least, count) = digits_kept s in
    (ground (arith, same), ground (arith, least), λ h. ground (arith, count, h))

pub decoded_length-twelve : (s : Text) → (decoded_length s ≡ some 12) ↔ IsNonce s
unfolding decoded_length
decoded_length-twelve s = elim (Bool-cases (length s % 4 == 2)) [
  | inl two ↦ (
    λ h. absurd (padded_fails s (b'=' ∷ []) (rw two at h)),
    λ (_, _, few). absurd (omega (arith, (==_iff _ _).0 two)),
  )
  | inr other ↦ elim (Bool-cases (length s % 4 == 3)) [
    | inl three ↦ (
      λ h. absurd (padded_fails s [] (rw (other, three) at h)),
      λ (_, _, few). absurd (omega (arith, (==_iff _ _).0 three)),
    )
    | inr neither ↦
        let (same, least, count) = digits_kept s in
        (
          λ h.
              let (digits, long) =
                digits_loop-twelve 0 (without_breaks s) (rw (other, neither) at h) in
              (same ∙ digits, omega (arith, count digits, long), ground (arith, other, neither)),
          λ (all_digits, sixteen, few).
              let digits = sym same ∙ all_digits in
              let long : 0 + length (without_breaks s) ≡ 16 = omega (arith, count digits) in
              rw (other, neither)
                (digits_loop-all 0 (without_breaks s) digits (omega (arith, long))
                  ∙ ap (λ n. some (n * 3 / 4)) long),
        )
  ]
]

append-eq-nil : (xs ys : List ValidationError) → xs ++ ys ≡ [] → (xs ≡ []) × (ys ≡ [])
append-eq-nil [] ys h = (refl, h)
append-eq-nil (x ∷ xs) ys h = cc

ttl_errors-nil : (req : CreateSecretRequest) → (ttl_errors req ≡ []) ↔ IsLimited req
ttl_errors-nil req = (λ h. ground arith, λ h. ground arith)

no_digits : decoded_length [] ≡ some 0
unfolding decoded_length digits_loop without_breaks
no_digits = refl

nonce_errors-nil : (nonce : Text) → (nonce_errors nonce ≡ []) ↔ (decoded_length nonce ≡ some 12)
nonce_errors-nil [] = (λ h. cc, λ h. absurd (ground (arith, h, no_digits)))
nonce_errors-nil (c ∷ nonce) = (λ h. ground arith, λ h. ground (arith, h))

burn_errors-nil : (burn : Option Bool) → (burn_errors burn ≡ []) ↔ (burn ≢ some false)
burn_errors-nil none = (λ h e. cc, λ h. refl)
burn_errors-nil (some true) = (λ h e. cc, λ h. refl)
burn_errors-nil (some false) = (λ h e. cc, λ h. absurd (h refl))

text_errors-nil :
    (content ciphertext : Text)
    → (content_errors content ++ ciphertext_errors ciphertext ≡ [])
      ↔ ((content ≡ []) × (ciphertext ≢ []))
text_errors-nil [] [] = (λ h. cc, λ (_, h). absurd (h refl))
text_errors-nil [] (c ∷ s) = (λ h. (refl, λ e. cc), λ h. refl)
text_errors-nil (c ∷ s) ciphertext = (λ h. cc, λ (h, _). cc)

sealed_errors-nil :
    (req : CreateSecretRequest)
    → req.ciphertext ≢ []
    → (sealed_errors req ≡ []) ↔ (
        (text_eq req.algorithm (units "AES-GCM") ≡ true)
        × (length req.ciphertext ≤ 15360)
        × (nonce_errors req.nonce ≡ []))
sealed_errors-nil req full = (λ h. ground (arith, h), λ h. ground (arith, h))

-- The server finds no error exactly in the requests with one of the three lifetimes, in seconds or, where these are
-- zero, in minutes; with no plaintext, a ciphertext of at most 15360 bytes, the algorithm AES-GCM, no
-- `burnAfterRead` that is false; and with a nonce of sixteen base64url digits, among which line breaks may
-- stand if their number has the remainder zero or one by four.
pub validate-IsAllowed :
    (req : CreateSecretRequest) → (validate_create_secret_request req ≡ []) ↔ IsAllowed req
unfolding validate_create_secret_request
validate-IsAllowed req = (
  λ h.
      let (ttl, h1) = append-eq-nil (ttl_errors req) _ h in
      let (content, h2) = append-eq-nil (content_errors req.content) _ h1 in
      let (ciphertext, h3) = append-eq-nil (ciphertext_errors req.ciphertext) _ h2 in
      let (burn, sealing) = append-eq-nil (burn_errors req.burn_after_read) _ h3 in
      let (plain, full) =
        (text_errors-nil req.content req.ciphertext).0 (rw (content, ciphertext) refl) in
      let (algorithm, small, nonce) = (sealed_errors-nil req full).0 sealing in
      record {
        limited = (ttl_errors-nil req).0 ttl;
        no_plaintext = plain;
        sealed = full;
        burns = (burn_errors-nil req.burn_after_read).0 burn;
        algorithm = algorithm;
        small = small;
        nonce = (decoded_length-twelve req.nonce).0 ((nonce_errors-nil req.nonce).0 nonce);
      },
  λ a.
      let (content, ciphertext) =
        append-eq-nil (content_errors req.content) _
          ((text_errors-nil req.content req.ciphertext).1 (a.no_plaintext, a.sealed)) in
      let sealing = (sealed_errors-nil req a.sealed).1 (
        a.algorithm,
        a.small,
        (nonce_errors-nil req.nonce).1 ((decoded_length-twelve req.nonce).1 a.nonce),
      ) in
      ap₂ (λ x y. x ++ y) ((ttl_errors-nil req).1 a.limited)
        (ap₂ (λ x y. x ++ y) content
          (ap₂ (λ x y. x ++ y) ciphertext
            (ap₂ (λ x y. x ++ y) ((burn_errors-nil req.burn_after_read).1 a.burns) sealing))),
)
