-- ===== src/Tests/Audit.antt =====
-- The audit's reveal scenarios on a toy browser.
use secret_letter.Prelude.{◌≡◌, ◌⊎◌, refl, [], none}
use secret_letter.Prelude.Results.{Result, throw}
use secret_letter.Errors.{Thrown}
use secret_letter.Text.{units}
use secret_letter.Platform.{Platform}
use secret_letter.Api.Fetch.{fails}
use secret_letter.PerfAudit.Reveal.{
  Scenario, active, server_error, AuditError, thrown, Reveal, measure_reveal_scenario,
}
use secret_letter.PerfAudit.Reveal.Ends.{IsUnrevealed, measure_reveal_scenario-unserved}
use secret_letter.PerfAudit.Reveal.{EncryptedSecret, plaintext_of, create_encrypted_secret}
use secret_letter.PerfAudit.Reveal.{offline}
use secret_letter.PerfAudit.Reveal.Offline.{offline_reveal, measure_reveal_scenario-offline}
use secret_letter.Utf8.Encoder.{encode, encode_char}
use secret_letter.Base64Url.{encode_base64_url}
use secret_letter.Text.{chars}
use secret_letter.Prelude.Results.{ok}
use secret_letter.Tests.Browser.{toy, toy-IsWebCrypto, replicate, with_tag}

abbrev failing : Scenario
failing = record {
  name = units "server-error";
  status_delay_ms = 150;
  open_delay_ms = 150;
  status_mode = active;
  open_mode = server_error;
}

abbrev unplugged : Platform
unplugged = record toy { exchange = λ request w. (w, fails) }

abbrev measured : Scenario → Result AuditError Reveal
measured scenario =
    (measure_reveal_scenario unplugged (λ w. 0) (λ ms w. w) (λ now. []) none scenario []).1

measure_reveal_scenario-unserved_example :
    ((e : Thrown) × (measured failing ≡ throw (thrown e))) ⊎ IsUnrevealed failing (measured failing)
measure_reveal_scenario-unserved_example =
    measure_reveal_scenario-unserved unplugged (λ w. 0) (λ ms w. w) (λ now. []) none failing
      (λ request w at. refl) refl []

-- A request for the status that is aborted, though the rest of the network would answer.
abbrev aborted : Scenario
aborted = record {
  name = units "offline";
  status_delay_ms = 0;
  open_delay_ms = 0;
  status_mode = offline;
  open_mode = offline;
}

abbrev aborted_secret : EncryptedSecret
aborted_secret = record {
  fragment_key = encode_base64_url (replicate 32 5);
  ciphertext = encode_base64_url (with_tag (encode (plaintext_of aborted)));
  nonce = encode_base64_url (replicate 12 5);
}

aborted_created :
    (create_encrypted_secret toy (λ w. 0) (λ ms w. w) (λ now. []) (plaintext_of aborted) []).1
    ≡ ok aborted_secret
unfolding create_encrypted_secret encode chars encode_char
aborted_created = refl

measure_reveal_scenario-offline_example :
    (measure_reveal_scenario toy (λ w. 0) (λ ms w. w) (λ now. []) none aborted []).1
    ≡ ok offline_reveal
measure_reveal_scenario-offline_example =
    measure_reveal_scenario-offline toy toy-IsWebCrypto (λ w. 0) (λ ms w. w) (λ now. []) none
      aborted refl [] aborted_secret aborted_created
