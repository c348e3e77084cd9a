-- ===== src/Tests/Sessions.antt =====
-- A cookie and a configuration, with a signature that stands in: it measures its payload.
use voxbench.Base.{
  ℕ, ◌+◌, ◌≡◌, refl, true, Option, none, some, String, List, [], ◌∷◌, length, arith, if◌then◌else◌,
  text_eq, ltb,
}
use voxbench.Base.Text.{codes, all_codes}
use voxbench.Base.Decimal.{digits}
use voxbench.AudioSession.{RemoteAudioSessionAuth, issue_cookie, remaining_seconds}
use voxbench.AudioSession.Cookies.{digits-IsToken, remaining-issued}
use voxbench.AudioSession.Sound.{Genuine, remaining-Genuine}
use voxbench.AudioSession.Config.{
  ok, value_error, build_remote_audio_session_from_env, login_token_env, secret_env, session_env,
  ttl_env,
}
use voxbench.AudioSession.Configured.{Configured, build-Configured}

abbrev measure : List ℕ → List ℕ → List ℕ
measure secret payload = digits (length secret + length payload)

abbrev auth : RemoteAudioSessionAuth
auth = record {
  login_token = codes "abcdefghijklmnopqrstuvwxyz012345";
  signing_secret = codes "ABCDEFGHIJKLMNOPQRSTUVWXYZ012345";
  ttl_seconds = 900;
  cookie_secure = true;
}

abbrev nonce : List ℕ
nonce = codes "n0nce"

abbrev cookie : List ℕ
cookie = codes "v1.1900.n0nce.45"

cookie_issued :
    issue_cookie measure auth 1_000 nonce (codes "abcdefghijklmnopqrstuvwxyz012345") ≡ some cookie
unfolding all_codes issue_cookie digits
cookie_issued = refl

login_rejected : issue_cookie measure auth 1_000 nonce (codes "abc") ≡ none
unfolding all_codes issue_cookie
login_rejected = refl

remaining-issued_example : remaining_seconds measure auth 1_300 (some cookie) ≡ some 600
unfolding all_codes
remaining-issued_example =
    remaining-issued measure auth 1_000 1_300 nonce (codes "abcdefghijklmnopqrstuvwxyz012345")
      cookie (refl, refl) (λ payload. digits-IsToken (length auth.signing_secret + length payload))
      cookie_issued (omega arith) (omega arith)

answered : remaining_seconds measure auth 1_300 (some cookie) ≡ some 600
unfolding all_codes remaining_seconds digits
answered = refl

forged : remaining_seconds measure auth 1_300 (some (codes "v1.1900.n0nce.46")) ≡ none
unfolding all_codes remaining_seconds digits
forged = refl

too_far : remaining_seconds measure auth 1_000 (some (codes "v1.1901.n0nce.45")) ≡ none
unfolding all_codes remaining_seconds digits
too_far = refl

remaining-Genuine_example : Genuine measure auth 1_300 cookie 600
remaining-Genuine_example = remaining-Genuine measure auth 1_300 cookie 600 answered

abbrev environment : String → Option (List ℕ)
environment name =
    if text_eq name session_env
    then some (codes " TRUE ")
    else if text_eq name login_token_env
    then some (codes "abcdefghijklmnopqrstuvwxyz012345")
    else if text_eq name secret_env
    then some (codes "ABCDEFGHIJKLMNOPQRSTUVWXYZ012345")
    else none

configured : build_remote_audio_session_from_env (λ c. none) environment true ≡ ok (some auth)
unfolding all_codes build_remote_audio_session_from_env
configured = refl

build-Configured_example : Configured (λ c. none) environment true auth
build-Configured_example = build-Configured (λ c. none) environment true auth configured

-- The superscript two is a digit for `isdigit`, and none for `int`.
superscript :
    build_remote_audio_session_from_env
      (λ c. if ltb c 200 then some none else none)
      (λ name. if text_eq name ttl_env then some (178 ∷ []) else environment name)
      true
    ≡ value_error
unfolding all_codes build_remote_audio_session_from_env
superscript = refl
