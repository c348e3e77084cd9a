-- ===== src/AudioSession/Cookies.antt =====
-- Cookies that are issued and verified: for `RemoteAudioSessionAuth` of
-- src/voxbench/control_plane/audio_session.py.
use voxbench.Base.{
  ℕ, ◌+◌, ◌-◌, ◌≤◌, ◌≡◌, refl, sym, ap, ◌∙◌, subst, inl, inr, true, ◌&&◌, none, some, some_inj,
  List, [], ◌∷◌, ◌++◌, append_assoc, ltb, le→leb, length, arith, Bool-cases, if◌then◌else◌,
}
use voxbench.Base.Text.{codes, all_codes, same_codes}
use voxbench.Base.Decimal.{
  digits, number_after, is_ascii_digit, number-digits, digits-all, digits_some,
}
use voxbench.AudioSession.{
  RemoteAudioSessionAuth, is_ascii, is_digits, add_to_first, open_part, split_at_dots, payload_of,
  issue_cookie, remaining_until, remaining_of_parts, remaining_of_split, remaining_seconds,
}
use voxbench.AudioSession.Splitting.{
  same_codes_refl, all_codes-append, all_codes-weaken, not_dot, split-append, split-whole,
}

-- A text of ASCII characters other than the full stop, as nonces and signatures are.
abbrev pub IsToken : List ℕ → Type 0
IsToken value = (is_ascii value ≡ true) × (all_codes not_dot value ≡ true)

pub digits-IsToken : (n : ℕ) → IsToken (digits n)
digits-IsToken n = (
  all_codes-weaken is_ascii_digit (λ c. ltb c 128) (digits n) (λ c h. ground arith) (digits-all n),
  all_codes-weaken is_ascii_digit not_dot (digits n) (λ c h. ground arith) (digits-all n),
)

ascii-cookie :
    (e nonce signed : List ℕ)
    → is_ascii e ≡ true
    → is_ascii nonce ≡ true
    → is_ascii signed ≡ true
    → is_ascii (payload_of e nonce ++ b'.' ∷ signed) ≡ true
unfolding payload_of all_codes
ascii-cookie e nonce signed a b c =
    all_codes-append (λ k. ltb k 128) (e ++ b'.' ∷ nonce) (b'.' ∷ signed)
      (all_codes-append (λ k. ltb k 128) e (b'.' ∷ nonce) a b) c

-- The four parts of a cookie.
split-cookie :
    (e nonce signed : List ℕ)
    → all_codes not_dot e ≡ true
    → all_codes not_dot nonce ≡ true
    → all_codes not_dot signed ≡ true
    → split_at_dots (payload_of e nonce ++ b'.' ∷ signed)
      ≡ record { first = codes "v1"; others = e ∷ nonce ∷ signed ∷ [] }
unfolding payload_of split_at_dots add_to_first open_part
split-cookie e nonce signed a b c =
    rw
      (
        append_assoc e (b'.' ∷ nonce) (b'.' ∷ signed),
        split-append e (nonce ++ b'.' ∷ signed) a,
        split-append nonce signed b,
        split-whole signed c,
      )
      refl

module _ (signature : List ℕ → List ℕ → List ℕ) (auth : RemoteAudioSessionAuth) where
  parts-signed :
      (later : ℕ) (e nonce : List ℕ)
      → is_digits e ≡ true
      → remaining_of_parts signature auth later
          (codes "v1")
          e
          nonce
          (signature auth.signing_secret (payload_of e nonce))
        ≡ remaining_until signature auth later (number_after 0 e)
  unfolding remaining_of_parts payload_of
  parts-signed later e nonce d =
      rw
        (
          d,
          same_codes_refl
              (signature auth.signing_secret (codes "v1" ++ b'.' ∷ (e ++ b'.' ∷ nonce))),
        )
        refl

  numeral : (n : ℕ) → is_digits (digits n) ≡ true
  numeral n = rw (le→leb 1 (length (digits n)) (digits_some n), digits-all n) refl

  until-issued :
      (issued later : ℕ)
      → issued ≤ later
      → remaining_until signature auth later (issued + auth.ttl_seconds) ≡ (
          if ltb later (issued + auth.ttl_seconds)
          then some (issued + auth.ttl_seconds - later)
          else none)
  unfolding remaining_until
  until-issued issued later l = ground arith

  -- A cookie with its own signature is answered with what remains until its time.
  remaining-signed :
      (later : ℕ) (e nonce : List ℕ)
      → is_digits e ≡ true
      → IsToken e
      → IsToken nonce
      → IsToken (signature auth.signing_secret (payload_of e nonce))
      → let cookie =
          payload_of e nonce ++ b'.' ∷ signature auth.signing_secret (payload_of e nonce) in
        length cookie ≤ 512
        → remaining_seconds signature auth later (some cookie)
          ≡ remaining_until signature auth later (number_after 0 e)
  unfolding remaining_seconds
  remaining-signed later e nonce d plain_e plain_nonce plain_signed short =
      let signed = signature auth.signing_secret (payload_of e nonce) in
      let cookie = payload_of e nonce ++ b'.' ∷ signed in
      let ascii = ascii-cookie e nonce signed plain_e.0 plain_nonce.0 plain_signed.0 in
      let fits = le→leb (length cookie) 512 short in
      rw (ascii, fits)
        (ap (remaining_of_split signature auth later)
            (split-cookie e nonce signed plain_e.1 plain_nonce.1 plain_signed.1)
          ∙ (unfold remaining_of_split in parts-signed later e nonce d))

  issued_cookie :
      (issued : ℕ) (nonce supplied cookie : List ℕ)
      → issue_cookie signature auth issued nonce supplied ≡ some cookie
      → let payload = payload_of (digits (issued + auth.ttl_seconds)) nonce in
        payload ++ b'.' ∷ signature auth.signing_secret payload ≡ cookie
  unfolding issue_cookie
  issued_cookie issued nonce supplied cookie given =
      elim (Bool-cases (is_ascii supplied && same_codes supplied auth.login_token)) [
        | inr n ↦ absurd (ground arith)
        | inl y ↦ some_inj _ _ (rw y at given)
      ]

  -- A cookie of at most 512 characters that was issued, with a nonce and signatures of ASCII
  -- characters other than the full stop, is answered at any later time with the seconds that
  -- remain until its lifetime is over, and with none from then on.
  pub remaining-issued :
      (issued later : ℕ) (nonce supplied cookie : List ℕ)
      → IsToken nonce
      → ((payload : List ℕ) → IsToken (signature auth.signing_secret payload))
      → issue_cookie signature auth issued nonce supplied ≡ some cookie
      → length cookie ≤ 512
      → issued ≤ later
      → remaining_seconds signature auth later (some cookie) ≡ (
          if ltb later (issued + auth.ttl_seconds)
          then some (issued + auth.ttl_seconds - later)
          else none)
  remaining-issued issued later nonce supplied cookie plain signed given short l =
      let same = issued_cookie issued nonce supplied cookie given in
      let e = digits (issued + auth.ttl_seconds) in
      ap (λ c. remaining_seconds signature auth later (some c)) (sym same)
      ∙ remaining-signed later e nonce (numeral (issued + auth.ttl_seconds))
          (digits-IsToken (issued + auth.ttl_seconds)) plain (signed _)
          (subst (λ c. length c ≤ 512) (sym same) short)
      ∙ ap (remaining_until signature auth later) (number-digits (issued + auth.ttl_seconds))
      ∙ until-issued issued later l
