-- ===== src/Api/Codes/Laws.antt =====
-- Which replies give which errors and messages.
use secret_letter.Prelude.{
  ap, ◌∙◌, ℕ, ◌≤◌, ◌<◌, ◌≡◌, ◌≢◌, ◌↔◌, ◌⊎◌, inl, inr, refl, [], ◌∷◌, Option, none, some, arith,
  Option-cases,
}
use secret_letter.Text.{Text, or_else}
use secret_letter.Errors.{SecretApiErrorCode, network_error, timeout_error, unknown_error}
use secret_letter.Api.Messages.{
  consumed_text, expired_text, not_found_text, invalid_id_text, rate_limit_text, client_text,
  timeout_text, network_text, server_text,
}
use secret_letter.Api.Codes.{
  known_code, code_of_status, normalize_secret_error_code, friendly_secret_api_message, ErrorData,
  to_secret_api_error,
}

known_code-ne :
    (code : Option Text)
    → (known_code code ≢ some network_error)
      × (known_code code ≢ some timeout_error)
      × (known_code code ≢ some unknown_error)
unfolding known_code
known_code-ne none = ground arith
known_code-ne (some code) = (ground arith, ground arith, ground arith)

code_of_status_sources :
    (status : ℕ)
    → (code_of_status status ≢ network_error)
      × ((code_of_status status ≡ timeout_error)
          ↔ ((◌≡◌ {A = Option SecretApiErrorCode} none none) × ((status ≡ 408) ⊎ (status ≡ 504))))
      × ((code_of_status status ≡ unknown_error)
          ↔ ((◌≡◌ {A = Option SecretApiErrorCode} none none) × (status < 400)))
unfolding code_of_status
code_of_status_sources status =
    (ground arith, (ground arith, ground arith), (ground arith, ground arith))

-- A reply never counts as a network error; it counts as a timeout exactly if it has no code that
-- is taken over and status 408 or 504, and as an unknown error exactly if it has no such code and
-- its status is below 400.
pub normalize_secret_error_code_sources :
    (code : Option Text) (status : ℕ)
    → (normalize_secret_error_code code status ≢ network_error)
      × ((normalize_secret_error_code code status ≡ timeout_error)
          ↔ ((known_code code ≡ none) × ((status ≡ 408) ⊎ (status ≡ 504))))
      × ((normalize_secret_error_code code status ≡ unknown_error)
          ↔ ((known_code code ≡ none) × (status < 400)))
unfolding normalize_secret_error_code
normalize_secret_error_code_sources code status = elim (Option-cases (known_code code)) [
  | inl e ↦ rw (e, normalize_secret_error_code) (code_of_status_sources status)
  | inr (k, e) ↦
      let (network, timeout, unknown) = known_code-ne code in
      rw (e, normalize_secret_error_code)
        (
          (λ h. network (e ∙ ap some h)),
          ((λ h. absurd (timeout (e ∙ ap some h))), (λ h. ground arith)),
          ((λ h. absurd (unknown (e ∙ ap some h))), (λ h. ground arith)),
        )
]

friendly_full :
    (code : SecretApiErrorCode) (status : ℕ)
    → code ≢ unknown_error
    → friendly_secret_api_message code status ≢ []
unfolding friendly_secret_api_message consumed_text expired_text not_found_text invalid_id_text
    rate_limit_text client_text timeout_text network_text server_text
friendly_full unknown_error status h = absurd (h refl)
friendly_full _ status h = λ e. cc

or_else_full : (a b : Text) → a ≢ [] → or_else a b ≡ a
or_else_full [] b h = absurd (h refl)
or_else_full (c ∷ a) b h = refl

-- A failed reply with status 400 or more is always explained by the frontend's own text for its
-- code, which is not empty: the server's message is never shown.
pub to_secret_api_error_message :
    (status : ℕ) (d : ErrorData)
    → 400 ≤ status
    → let e = to_secret_api_error status d in
      (e.message ≡ friendly_secret_api_message e.code status) × (e.message ≢ [])
unfolding to_secret_api_error
to_secret_api_error_message status d h =
    let (network, timeout, unknown) = normalize_secret_error_code_sources d.error status in
    let full =
      friendly_full (normalize_secret_error_code d.error status) status
        (λ e. absurd (omega (arith, (unknown.0 e).1))) in
    (or_else_full _ _ full, rw (or_else_full _ _ full) full)
