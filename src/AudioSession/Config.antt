-- ===== src/AudioSession/Config.antt =====
-- The configuration of audio sessions from environment variables:
-- `build_remote_audio_session_from_env` of src/voxbench/control_plane/audio_session.py. A value is a
-- list of code points.
use voxbench.Base.{
  ℕ, ◌+◌, ◌-◌, ◌*◌, Bool, true, false, ◌&&◌, not, Option, none, some, String, List, [], ◌∷◌, ◌++◌,
  leb, ltb, map, length, if◌then◌else◌,
}
use voxbench.Base.Text.{codes, strip, same_codes, any_code, all_codes, is_space, lower_ascii}
use voxbench.Base.Decimal.{is_ascii_digit}
use voxbench.AudioSession.{RemoteAudioSessionAuth, is_ascii}

-- `failed` is an AudioSessionConfigurationError with its alias and the names that are missing, and
-- `value_error` a ValueError.
pub data Checked (A : Type 0) : Type 0 where
  ok : (value : A) → Checked A
  failed : (reason_alias : String) (missing_env_names : List String) → Checked A
  value_error : Checked A

infixl 40 ◌>>=◌
abbrev pub ◌>>=◌ : {A B : Type 0} → Checked A → (A → Checked B) → Checked B
ok value >>= next = next value
failed reason missing >>= next = failed reason missing
value_error >>= next = value_error

abbrev pub check : Bool → String → Checked Bool
check true reason = ok true
check false reason = failed reason []

-- `_validate_secret`
unfoldable pub validate_secret : List ℕ → String → Checked Bool
unfolding any_code
validate_secret value reason =
    check
      (leb 32 (length value)
        && leb (length value) 256
        && is_ascii value
        && not (any_code is_space value))
      reason

-- `_parse_boolean`; the lower case of no other character is a letter of the two words.
unfoldable pub parse_boolean : List ℕ → String → Checked Bool
unfolding strip same_codes
parse_boolean value reason =
    let normalized = map lower_ascii (strip value) in
    if same_codes normalized (codes "true")
    then ok true
    else if same_codes normalized (codes "false")
    then ok false
    else failed reason []

-- A digit, which has a decimal value or, as a superscript, none. `unicode_digit` is the table of
-- Unicode for the other characters.
unfoldable pub digit_of : (ℕ → Option (Option ℕ)) → ℕ → Option (Option ℕ)
digit_of unicode_digit c =
    if is_ascii_digit c then some (some (c - 48)) else if ltb c 128 then none else unicode_digit c

unfoldable pub is_digit : (ℕ → Option (Option ℕ)) → ℕ → Bool
unfolding digit_of
is_digit unicode_digit c = elim (digit_of unicode_digit c) [ none ↦ false | some value ↦ true ]

-- The digits of a text, after the number that was read.
unfoldable pub int_after : (ℕ → Option (Option ℕ)) → ℕ → List ℕ → Checked ℕ
unfolding digit_of
int_after unicode_digit n [] = ok n
int_after unicode_digit n (c ∷ cs) = elim (digit_of unicode_digit c) [
  | none ↦ value_error
  | some value ↦ elim value [
    | none ↦ value_error
    | some d ↦ int_after unicode_digit (10 * n + d) cs
  ]
]

-- `int(text)`, which refuses more than 4,300 digits.
unfoldable pub int_of : (ℕ → Option (Option ℕ)) → List ℕ → Checked ℕ
unfolding int_after
int_of unicode_digit digits =
    if leb (length digits) 4_300 then int_after unicode_digit 0 digits else value_error

-- `_parse_integer`
unfoldable pub parse_integer : (ℕ → Option (Option ℕ)) → List ℕ → ℕ → ℕ → String → Checked ℕ
unfolding strip all_codes is_digit int_of
parse_integer unicode_digit value minimum maximum reason = do
  let normalized = strip value
  digits ← check (leb 1 (length normalized) && all_codes (is_digit unicode_digit) normalized) reason
  parsed ← int_of unicode_digit normalized
  within ← check (leb minimum parsed && leb parsed maximum) reason
  ok parsed

abbrev pub session_env : String
session_env = "VOXBENCH_WEB_AUDIO_SESSION"

abbrev pub login_token_env : String
login_token_env = "VOXBENCH_WEB_AUDIO_LOGIN_TOKEN"

abbrev pub secret_env : String
secret_env = "VOXBENCH_WEB_AUDIO_SESSION_SECRET"

abbrev pub ttl_env : String
ttl_env = "VOXBENCH_WEB_AUDIO_SESSION_TTL_SECONDS"

abbrev pub cookie_secure_env : String
cookie_secure_env = "VOXBENCH_WEB_AUDIO_COOKIE_SECURE"

-- `values.get(name, default)`
abbrev pub get_or : Option (List ℕ) → String → List ℕ
get_or none default = codes default
get_or (some value) default = value

-- The names of those that are missing.
abbrev pub missing_of : String → Option (List ℕ) → List String
missing_of name none = name ∷ []
missing_of name (some value) = []

module _ (unicode_digit : ℕ → Option (Option ℕ)) (values : String → Option (List ℕ)) where
  unfoldable pub build_from_secrets : List ℕ → List ℕ → Checked RemoteAudioSessionAuth
  unfolding validate_secret parse_integer parse_boolean same_codes
  build_from_secrets login_token signing_secret = do
    a ← validate_secret login_token "web-audio-login-token-invalid"
    b ← validate_secret signing_secret "web-audio-session-secret-invalid"
    c ← check (not (same_codes login_token signing_secret)) "web-audio-secrets-must-differ"
    ttl_seconds ←
        parse_integer unicode_digit (get_or (values ttl_env) "900") 60 3_600
          "web-audio-session-ttl-invalid"
    cookie_secure ←
        parse_boolean (get_or (values cookie_secure_env) "true") "web-audio-cookie-secure-invalid"
    ok (record {
      login_token = login_token;
      signing_secret = signing_secret;
      ttl_seconds = ttl_seconds;
      cookie_secure = cookie_secure;
    })

  unfoldable pub required_secrets :
      Option (List ℕ) → Option (List ℕ) → Checked RemoteAudioSessionAuth
  unfolding build_from_secrets
  required_secrets (some login_token) (some signing_secret) =
      build_from_secrets login_token signing_secret
  required_secrets login_token signing_secret =
      failed "web-audio-session-config-missing"
        (missing_of login_token_env login_token ++ missing_of secret_env signing_secret)

  unfoldable pub build_if_enabled : Bool → Bool → Checked (Option RemoteAudioSessionAuth)
  unfolding required_secrets
  build_if_enabled false proxy_enabled = ok none
  build_if_enabled true proxy_enabled = do
    d ← check proxy_enabled "web-audio-session-requires-remote-proxy"
    auth ← required_secrets (values login_token_env) (values secret_env)
    ok (some auth)

  -- `ok none`: audio sessions are not enabled.
  unfoldable pub build_remote_audio_session_from_env :
      Bool → Checked (Option RemoteAudioSessionAuth)
  unfolding parse_boolean build_if_enabled
  build_remote_audio_session_from_env proxy_enabled = do
    enabled ← parse_boolean (get_or (values session_env) "false") "web-audio-session-flag-invalid"
    build_if_enabled enabled proxy_enabled
