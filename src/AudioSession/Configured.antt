-- ===== src/AudioSession/Configured.antt =====
-- What a configuration is that is accepted: for `build_remote_audio_session_from_env` of
-- src/voxbench/control_plane/audio_session.py.
use voxbench.Base.{
  ℕ, ◌≤◌, ◌≡◌, ◌≢◌, refl, sym, ap, ◌∙◌, subst, Bool, true, false, ◌&&◌, not, Option, none, some,
  some_inj, String, List, leb, leb→le, length, arith,
}
use voxbench.Base.Text.{same_codes, any_code, is_space, strip, all_codes}
use voxbench.AudioSession.{RemoteAudioSessionAuth, is_ascii}
use voxbench.AudioSession.Splitting.{same_codes_refl}
use voxbench.AudioSession.Config.{
  Checked, ok, failed, value_error, ◌>>=◌, check, validate_secret, is_digit, int_of, parse_integer,
  parse_boolean, login_token_env, secret_env, session_env, ttl_env, cookie_secure_env, get_or,
  build_from_secrets, required_secrets, build_if_enabled, build_remote_audio_session_from_env,
}

-- A chain that succeeds has succeeded at its first call.
chained :
    {A B : Type 0} (first : Checked A) (next : A → Checked B) {result : B}
    → (first >>= next) ≡ ok result
    → (value : A) × (first ≡ ok value) × (next value ≡ ok result)
chained (ok value) next e = (value, refl, e)
chained (failed reason missing) next e = cc
chained value_error next e = cc

ok_inj : {A : Type 0} (a b : A) → ok a ≡ ok b → a ≡ b
ok_inj a b = ap (λ r. elim r [ ok x ↦ x | _ ↦ a ])

checked : (b : Bool) (reason : String) {c : Bool} → check b reason ≡ ok c → b ≡ true
checked true reason e = refl
checked false reason e = cc

-- A secret of 32 to 256 ASCII characters, none of them a space.
abbrev pub IsSecret : List ℕ → Type 0
IsSecret value =
    (32 ≤ length value)
    × (length value ≤ 256)
    × (is_ascii value ≡ true)
    × (any_code is_space value ≡ false)

validate_secret-IsSecret :
    (value : List ℕ) (reason : String) {c : Bool}
    → validate_secret value reason ≡ ok c
    → IsSecret value
unfolding validate_secret
validate_secret-IsSecret value reason e =
    let y = checked _ reason e in
    (
      leb→le 32 (length value) (ground arith),
      leb→le (length value) 256 (ground arith),
      ground arith,
      ground arith,
    )

module _ (unicode_digit : ℕ → Option (Option ℕ)) where
  parse_integer-bounds :
      (value : List ℕ) (minimum maximum : ℕ) (reason : String) (n : ℕ)
      → parse_integer unicode_digit value minimum maximum reason ≡ ok n
      → (minimum ≤ n) × (n ≤ maximum)
  unfolding parse_integer
  parse_integer-bounds value minimum maximum reason n e =
      let (a, _, e') =
        chained
          (check (leb 1 (length (strip value)) && all_codes (is_digit unicode_digit) (strip value))
            reason)
          _ e in
      let (parsed, _, e'') = chained (int_of unicode_digit (strip value)) _ e' in
      let (b, within, same) =
        chained (check (leb minimum parsed && leb parsed maximum) reason) _ e'' in
      let y = checked _ reason within in
      let p : parsed ≡ n = ok_inj _ _ same in
      (
        subst (λ k. minimum ≤ k) p (leb→le minimum parsed (ground arith)),
        subst (λ k. k ≤ maximum) p (leb→le parsed maximum (ground arith)),
      )

  module _ (values : String → Option (List ℕ)) where
    pub record Configured (proxy_enabled : Bool) (auth : RemoteAudioSessionAuth) : Type 0 where
      pub proxy : proxy_enabled ≡ true
      pub token_given : values login_token_env ≡ some auth.login_token
      pub secret_given : values secret_env ≡ some auth.signing_secret
      pub token_secret : IsSecret auth.login_token
      pub signing_secret : IsSecret auth.signing_secret
      pub differ : auth.login_token ≢ auth.signing_secret
      pub ttl_minimum : 60 ≤ auth.ttl_seconds
      pub ttl_maximum : auth.ttl_seconds ≤ 3_600

    -- What is built from two secrets.
    built :
        (login_token signing_secret : List ℕ) (auth : RemoteAudioSessionAuth)
        → build_from_secrets unicode_digit values login_token signing_secret ≡ ok auth
        → (IsSecret login_token)
          × (IsSecret signing_secret)
          × (same_codes login_token signing_secret ≡ false)
          × (60 ≤ auth.ttl_seconds)
          × (auth.ttl_seconds ≤ 3_600)
          × (auth.login_token ≡ login_token)
          × (auth.signing_secret ≡ signing_secret)
    unfolding build_from_secrets
    built login_token signing_secret auth e =
        let (a, token, e1) = chained (validate_secret login_token _) _ e in
        let (b, secret, e2) = chained (validate_secret signing_secret _) _ e1 in
        let (c, differ, e3) =
          chained (check (not (same_codes login_token signing_secret)) _) _ e2 in
        let (ttl, within, e4) =
          chained (parse_integer unicode_digit (get_or (values ttl_env) "900") 60 3_600 _) _ e3 in
        let (secure, _, e5) =
          chained (parse_boolean (get_or (values cookie_secure_env) "true") _) _ e4 in
        let same = ok_inj _ _ e5 in
        let bounds =
          parse_integer-bounds (get_or (values ttl_env) "900") 60 3_600
            "web-audio-session-ttl-invalid" ttl within in
        let y = checked (not (same_codes login_token signing_secret)) _ differ in
        (
          validate_secret-IsSecret login_token _ token,
          validate_secret-IsSecret signing_secret _ secret,
          ground arith,
          subst (λ r. 60 ≤ r.ttl_seconds) same bounds.0,
          subst (λ r. r.ttl_seconds ≤ 3_600) same bounds.1,
          ap (λ r. r.login_token) (sym same),
          ap (λ r. r.signing_secret) (sym same),
        )

    required :
        (proxy_enabled : Bool) (token secret : Option (List ℕ)) (auth : RemoteAudioSessionAuth)
        → proxy_enabled ≡ true
        → values login_token_env ≡ token
        → values secret_env ≡ secret
        → required_secrets unicode_digit values token secret ≡ ok auth
        → Configured proxy_enabled auth
    unfolding required_secrets
    required proxy_enabled none secret auth p t s e = cc
    required proxy_enabled (some token) none auth p t s e = cc
    required proxy_enabled (some token) (some secret) auth p t s e =
        let (a, b, differ, low, high, same_token, same_secret) = built token secret auth e in
        record {
          proxy = p;
          token_given = t ∙ ap (λ (x : List ℕ). some x) (sym same_token);
          secret_given = s ∙ ap (λ (x : List ℕ). some x) (sym same_secret);
          token_secret = subst IsSecret (sym same_token) a;
          signing_secret = subst IsSecret (sym same_secret) b;
          differ = λ equal. distinct token secret differ (sym same_token ∙ equal ∙ same_secret);
          ttl_minimum = low;
          ttl_maximum = high;
        }
      where
        distinct : (xs ys : List ℕ) → same_codes xs ys ≡ false → xs ≢ ys
        distinct xs ys d e =
            let y : same_codes xs ys ≡ true =
              subst (λ zs. same_codes xs zs ≡ true) e (same_codes_refl xs) in
            cc

    if_enabled :
        (enabled proxy_enabled : Bool) (auth : RemoteAudioSessionAuth)
        → build_if_enabled unicode_digit values enabled proxy_enabled ≡ ok (some auth)
        → (enabled ≡ true) × Configured proxy_enabled auth
    unfolding build_if_enabled
    if_enabled false proxy_enabled auth e = absurd (nothing (ok_inj _ _ e))
      where
        nothing : none ≡ some auth → ⊥
        nothing h = cc
    if_enabled true proxy_enabled auth e =
        let (a, proxy, e1) = chained (check proxy_enabled _) _ e in
        let (auth', given, e2) =
          chained
            (required_secrets unicode_digit values (values login_token_env) (values secret_env)) _
            e1 in
        let same : auth' ≡ auth = some_inj _ _ (ok_inj _ _ e2) in
        (
          refl,
          subst (Configured proxy_enabled) same (
              required proxy_enabled (values login_token_env) (values secret_env) auth'
                (checked proxy_enabled _ proxy) refl refl given),
        )

    -- Audio sessions are configured only if the remote proxy is enabled, with the two secrets that
    -- the environment gives, each of 32 to 256 ASCII characters without a space, which differ, and
    -- with a lifetime of 60 to 3,600 seconds.
    pub build-Configured :
        (proxy_enabled : Bool) (auth : RemoteAudioSessionAuth)
        → build_remote_audio_session_from_env unicode_digit values proxy_enabled ≡ ok (some auth)
        → Configured proxy_enabled auth
    unfolding build_remote_audio_session_from_env
    build-Configured proxy_enabled auth e =
        let (enabled, flag, e1) =
          chained (parse_boolean (get_or (values session_env) "false") _) _ e in
        (if_enabled enabled proxy_enabled auth e1).1
