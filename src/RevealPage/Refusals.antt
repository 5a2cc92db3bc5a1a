-- ===== src/RevealPage/Refusals.antt =====
-- What RevealPage.tsx shows for a reply of the server that is no success.
use mathlib.Core.Bool.{false≢true}
use secret_letter.Text.Equality.{text_eq→eq, text_eq_refl}
use secret_letter.Prelude.{
  List, [], ◌∷◌, ◌≢◌, All, Bool-cases, ℕ, ◌≡◌, ◌↔◌, ◌⊎◌, inl, inr, refl, ap, ◌∙◌, sym, false,
  Option, none, some, arith, Option-cases,
}
use secret_letter.Prelude.Results.{Result, throw}
use secret_letter.Errors.{
  SecretApiErrorCode, secret_consumed, already_consumed, secret_expired, secret_api_error, Thrown,
}
use secret_letter.Text.{Text, units, text_eq}
use secret_letter.Http.{field, Response, is_ok}
use secret_letter.Api.Codes.{
  known_code, code_of_status, normalize_secret_error_code, to_secret_api_error,
}
use secret_letter.Api.Requests.{json_or_empty, read_reply}
use secret_letter.Scene.{consumed, expired, error}
use secret_letter.RevealPage.Errors.{show_api_error, map_open_error}

-- The codes of the server that types.ts and api.ts name.
abbrev pub server_codes : List Text
server_codes =
    units "SECRET_CONSUMED"
    ∷ units "SECRET_EXPIRED"
    ∷ units "SECRET_NOT_FOUND"
    ∷ units "already_consumed"
    ∷ units "not_found"
    ∷ units "invalid_secret_id"
    ∷ units "rate_limit_exceeded"
    ∷ []

-- The body of a reply has no code, or one that is none of these.
abbrev pub IsForeign : Option Text → Type 0
IsForeign code = (t : Text) → code ≡ some t → All (λ c. t ≢ c) server_codes

-- Why a letter counts as consumed: a code of the server's, or status 410 without one.
abbrev pub IsConsumed : Option Text → ℕ → Type 0
IsConsumed code status =
    (code ≡ some (units "SECRET_CONSUMED"))
    ⊎ ((code ≡ some (units "already_consumed")) ⊎ (IsForeign code × (status ≡ 410)))

text_ne : (s t : Text) → text_eq s t ≡ false → s ≢ t
text_ne s t h e = absurd (false≢true (sym h ∙ ap (λ u. text_eq s u) (sym e) ∙ text_eq_refl s))

text_eq-ne : (s t : Text) → s ≢ t → text_eq s t ≡ false
text_eq-ne s t h = elim (Bool-cases (text_eq s t)) [
  | inl e ↦ absurd (h (text_eq→eq s t e))
  | inr e ↦ e
]

some_text : {s t : Text} → ◌≡◌ {A = Option Text} (some s) (some t) → s ≡ t
some_text h = cc

known_code-consumed :
    (code : Option Text)
    → (known_code code ≡ some secret_consumed) ↔ (code ≡ some (units "SECRET_CONSUMED"))
unfolding known_code text_eq
known_code-consumed none = (λ h. cc, λ h. cc)
known_code-consumed (some t) = (
  λ h. elim (Bool-cases (text_eq t (units "SECRET_CONSUMED"))) [
    | inl e ↦ ap some (text_eq→eq t (units "SECRET_CONSUMED") e)
    | inr other ↦ ground (arith, other, h)
  ],
  λ e. rw (some_text e) refl,
)

known_code-expired :
    (code : Option Text)
    → (known_code code ≡ some secret_expired) ↔ (code ≡ some (units "SECRET_EXPIRED"))
unfolding known_code text_eq
known_code-expired none = (λ h. cc, λ h. cc)
known_code-expired (some t) = (
  λ h. elim (Bool-cases (text_eq t (units "SECRET_EXPIRED"))) [
    | inl e ↦ ap some (text_eq→eq t (units "SECRET_EXPIRED") e)
    | inr other ↦ ground (arith, other, h)
  ],
  λ e. rw (some_text e) refl,
)

known_code-already :
    (code : Option Text)
    → (known_code code ≡ some already_consumed) ↔ (code ≡ some (units "already_consumed"))
unfolding known_code text_eq
known_code-already none = (λ h. cc, λ h. cc)
known_code-already (some t) = (
  λ h. elim (Bool-cases (text_eq t (units "already_consumed"))) [
    | inl e ↦ ap some (text_eq→eq t (units "already_consumed") e)
    | inr other ↦ ground (arith, other, h)
  ],
  λ e. rw (some_text e) refl,
)

known_code-IsForeign : (code : Option Text) → (known_code code ≡ none) ↔ IsForeign code
unfolding known_code
known_code-IsForeign none = (λ h t e. cc, λ h. refl)
known_code-IsForeign (some t) = (
  λ h s e. rw⁻¹ (some_text e) (
    text_ne t _ (ground arith),
    (
      text_ne t _ (ground arith),
      (
        text_ne t _ (ground arith),
        (
          text_ne t _ (ground arith),
          (
            text_ne t _ (ground arith),
            (text_ne t _ (ground arith), (text_ne t _ (ground arith), tt)),
          ),
        ),
      ),
    ),
  ),
  λ h.
      let (a, (b, (c, (d, (e, (f, (g, _))))))) = h t refl in
      rw
        (
          text_eq-ne t _ a,
          text_eq-ne t _ b,
          text_eq-ne t _ c,
          text_eq-ne t _ d,
          text_eq-ne t _ e,
          text_eq-ne t _ f,
          text_eq-ne t _ g,
          known_code,
        )
        refl,
)

abbrev code_of : Option SecretApiErrorCode → ℕ → SecretApiErrorCode
code_of none status = code_of_status status
code_of (some code) status = code

code_of-consumed :
    (known : Option SecretApiErrorCode) (status : ℕ) (message : Text)
    → ((show_api_error (code_of known status) message).state ≡ consumed) ↔ (
        (known ≡ some secret_consumed)
        ⊎ ((known ≡ some already_consumed) ⊎ ((known ≡ none) × (status ≡ 410))))
unfolding code_of_status show_api_error
code_of-consumed none status message = (ground arith, ground arith)
code_of-consumed (some code) status message = (ground arith, ground arith)

code_of-expired :
    (known : Option SecretApiErrorCode) (status : ℕ) (message : Text)
    → ((show_api_error (code_of known status) message).state ≡ expired)
      ↔ (known ≡ some secret_expired)
unfolding code_of_status show_api_error
code_of-expired none status message = (ground arith, ground arith)
code_of-expired (some code) status message = (ground arith, ground arith)

normalize-code_of :
    (code : Option Text) (status : ℕ)
    → normalize_secret_error_code code status ≡ code_of (known_code code) status
unfolding normalize_secret_error_code
normalize-code_of code status = elim (Option-cases (known_code code)) [
  | inl e ↦ rw (e, normalize_secret_error_code) refl
  | inr (known, e) ↦ rw (e, normalize_secret_error_code) refl
]

three_states :
    (code : SecretApiErrorCode) (message : Text)
    → let state = (show_api_error code message).state in
      (state ≡ consumed) ⊎ ((state ≡ expired) ⊎ (state ≡ error))
unfolding show_api_error
three_states code message = ground arith

throw-injective :
    {A : Type 0} {d e : Thrown} → ◌≡◌ {A = Result Thrown A} (throw d) (throw e) → d ≡ e
throw-injective h = cc

-- The codes of the server, for what the code takes over.
codes_iff :
    (code : Option Text) (status : ℕ)
    → ((known_code code ≡ some secret_consumed)
        ⊎ ((known_code code ≡ some already_consumed) ⊎ ((known_code code ≡ none) × (status ≡ 410))))
      ↔ IsConsumed code status
codes_iff code status =
    let (c0, c1) = known_code-consumed code in
    let (a0, a1) = known_code-already code in
    let (f0, f1) = known_code-IsForeign code in
    (
      λ h. elim h [
        | inl c ↦ inl (c0 c)
        | inr (inl a) ↦ inr (inl (a0 a))
        | inr (inr (f, e)) ↦ inr (inr (f0 f, e))
      ],
      λ h. elim h [
        | inl c ↦ inl (c1 c)
        | inr (inl a) ↦ inr (inl (a1 a))
        | inr (inr (f, e)) ↦ inr (inr (f1 f, e))
      ],
    )

-- For a reply outside the two hundreds, read as an error and shown by `mapOpenError`: the letter
-- counts as consumed exactly if the body's code is SECRET_CONSUMED or already_consumed, or the status is 410
-- and the body has none of the server's seven codes; as expired exactly if the code is SECRET_EXPIRED; and in all
-- other cases an error is shown.
pub refusal_shown :
    (r : Response) (e : Thrown)
    → is_ok r ≡ false
    → read_reply r ≡ throw e
    → let code = field "error" (json_or_empty r.json) in
      (((map_open_error e).state ≡ consumed) ↔ IsConsumed code r.status)
      × (((map_open_error e).state ≡ expired) ↔ (code ≡ some (units "SECRET_EXPIRED")))
      × (((map_open_error e).state ≡ consumed)
          ⊎ (((map_open_error e).state ≡ expired) ⊎ ((map_open_error e).state ≡ error)))
unfolding read_reply to_secret_api_error map_open_error
refusal_shown r e bad thrown =
    let data_fields = json_or_empty r.json in
    let code = field "error" data_fields in
    let api =
      to_secret_api_error r.status
        (record { error = code; message = field "message" data_fields }) in
    let same : secret_api_error api ≡ e = throw-injective (rw (bad, read_reply) at thrown) in
    let shown : map_open_error e ≡ show_api_error (code_of (known_code code) r.status) api.message =
      ap map_open_error (sym same)
      ∙ ap (λ c. show_api_error c api.message) (normalize-code_of code r.status) in
    let seen = code_of-consumed (known_code code) r.status api.message in
    let ended = code_of-expired (known_code code) r.status api.message in
    let same_codes = codes_iff code r.status in
    let same_expired = known_code-expired code in
    rw shown (
      (λ h. same_codes.0 (seen.0 h), λ h. seen.1 (same_codes.1 h)),
      (λ h. same_expired.0 (ended.0 h), λ h. ended.1 (same_expired.1 h)),
      three_states (code_of (known_code code) r.status) api.message,
    )
