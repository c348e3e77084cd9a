-- ===== src/AudioSession.antt =====
-- The session cookie of a browser that plays remote recordings: `RemoteAudioSessionAuth` of
-- src/voxbench/control_plane/audio_session.py. A text is a list of code points. The signature is a
-- parameter: `_signature` is HMAC-SHA256 of the payload under the secret, in base 64 for URLs.
pub mod Splitting
pub mod Cookies
pub mod Sound
pub mod Config
pub mod Configured
use voxbench.Base.{
  ℕ, zero, suc, ◌+◌, ◌-◌, Bool, true, false, ◌&&◌, not, Option, none, some, List, [], ◌∷◌, ◌++◌,
  leb, ltb, ◌==◌, length, if◌then◌else◌,
}
use voxbench.Base.Text.{codes, all_codes, same_codes}
use voxbench.Base.Decimal.{digits, number_after, is_ascii_digit}

pub record RemoteAudioSessionAuth : Type 0 where
  pub login_token : List ℕ
  pub signing_secret : List ℕ
  pub ttl_seconds : ℕ
  pub cookie_secure : Bool

-- `value.isascii()`
abbrev pub is_ascii : List ℕ → Bool
is_ascii value = all_codes (λ c. ltb c 128) value

-- `value.isdigit()` of an ASCII text.
abbrev pub is_digits : List ℕ → Bool
is_digits value = leb 1 (length value) && all_codes is_ascii_digit value

-- The first part of a text that is split at its full stops, and the other parts.
pub record Parts : Type 0 where
  pub first : List ℕ
  pub others : List (List ℕ)

unfoldable pub add_to_first : ℕ → Parts → Parts
add_to_first c parts = record parts { first = c ∷ parts.first }

unfoldable pub open_part : Parts → Parts
open_part parts = record { first = []; others = parts.first ∷ parts.others }

-- `value.split(".")`
unfoldable pub split_at_dots : List ℕ → Parts
unfolding add_to_first open_part
split_at_dots [] = record { first = []; others = [] }
split_at_dots (c ∷ cs) =
    let rest = split_at_dots cs in if c == b'.' then open_part rest else add_to_first c rest

-- `f"v1.{expires_at}.{nonce}"`
unfoldable pub payload_of : List ℕ → List ℕ → List ℕ
payload_of expires_at nonce = codes "v1." ++ expires_at ++ b'.' ∷ nonce

module _ (signature : List ℕ → List ℕ → List ℕ) (auth : RemoteAudioSessionAuth) where
  -- `none`: the login is rejected. The clock and the nonce are what they returned.
  unfoldable pub issue_cookie : ℕ → List ℕ → List ℕ → Option (List ℕ)
  unfolding payload_of same_codes
  issue_cookie now nonce supplied_login_token =
      let payload = payload_of (digits (now + auth.ttl_seconds)) nonce in
      if is_ascii supplied_login_token && same_codes supplied_login_token auth.login_token
      then some (payload ++ b'.' ∷ signature auth.signing_secret payload)
      else none

  unfoldable pub remaining_until : ℕ → ℕ → Option ℕ
  remaining_until now expires_at =
      let remaining = expires_at - now in
      if leb expires_at now
      then none
      else if ltb auth.ttl_seconds remaining
      then none
      else some remaining

  -- The four parts of a cookie.
  unfoldable pub remaining_of_parts : ℕ → List ℕ → List ℕ → List ℕ → List ℕ → Option ℕ
  unfolding payload_of remaining_until same_codes number_after
  remaining_of_parts now version expires_at nonce signed =
      if same_codes version (codes "v1") && is_digits expires_at
      then (if same_codes signed
            (signature auth.signing_secret (version ++ b'.' ∷ (expires_at ++ b'.' ∷ nonce)))
          then remaining_until now (number_after 0 expires_at)
          else none)
      else none

  unfoldable pub remaining_of_split : ℕ → Parts → Option ℕ
  unfolding remaining_of_parts
  remaining_of_split now parts = elim parts.others [
    | [] ↦ none
    | expires_at ∷ rest ↦ elim rest [
      | [] ↦ none
      | nonce ∷ rest' ↦ elim rest' [
        | [] ↦ none
        | signed ∷ rest'' ↦ elim rest'' [
          | [] ↦ remaining_of_parts now parts.first expires_at nonce signed
          | _ ∷ _ ↦ none
        ]
      ]
    ]
  ]

  unfoldable pub remaining_seconds : ℕ → Option (List ℕ) → Option ℕ
  unfolding split_at_dots remaining_of_split
  remaining_seconds now none = none
  remaining_seconds now (some cookie) =
      if is_ascii cookie && leb (length cookie) 512
      then remaining_of_split now (split_at_dots cookie)
      else none
