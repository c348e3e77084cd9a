-- ===== src/AudioSession/Sound.antt =====
-- What a cookie is that is accepted: for `RemoteAudioSessionAuth.remaining_seconds` of
-- src/voxbench/control_plane/audio_session.py.
use voxbench.Base.{
  ℕ, ◌+◌, ◌-◌, ◌≤◌, ◌≡◌, refl, sym, ap, ◌∙◌, subst, subst₂, inl, inr, true, ◌&&◌, some, some_inj,
  List, [], ◌∷◌, ◌++◌, append_assoc, leb, ltb, length, arith, Bool-cases,
}
use voxbench.Base.Text.{codes, same_codes}
use voxbench.Base.Decimal.{number_after}
use voxbench.AudioSession.{
  RemoteAudioSessionAuth, is_ascii, is_digits, split_at_dots, payload_of, remaining_until,
  remaining_of_parts, remaining_of_split, remaining_seconds,
}
use voxbench.AudioSession.Splitting.{same_codes→, rejoined, rejoined-split}

module _ (signature : List ℕ → List ℕ → List ℕ) (auth : RemoteAudioSessionAuth) where
  -- A version, a time, a nonce and the signature of these; and the time is so far away.
  pub record Genuine (now : ℕ) (cookie : List ℕ) (n : ℕ) : Type 0 where
    pub expires_at : List ℕ
    pub nonce : List ℕ
    pub whole :
        cookie
        ≡ payload_of expires_at nonce
          ++ b'.' ∷ signature auth.signing_secret (payload_of expires_at nonce)
    pub numeral : is_digits expires_at ≡ true
    pub time : number_after 0 expires_at ≡ now + n
    pub left : 1 ≤ n
    pub short : n ≤ auth.ttl_seconds

  until-some :
      (now t n : ℕ)
      → remaining_until signature auth now t ≡ some n
      → (t ≡ now + n) × (1 ≤ n) × (n ≤ auth.ttl_seconds)
  unfolding remaining_until
  until-some now t n h = elim (Bool-cases (leb t now)) [
    | inl y ↦ absurd (ground arith)
    | inr later ↦ elim (Bool-cases (ltb auth.ttl_seconds (t - now))) [
      | inl y ↦ absurd (ground arith)
      | inr m ↦
          let same : t - now ≡ n = some_inj _ _ (ground arith) in
          (ground arith, ground arith, ground arith)
    ]
  ]

  parts-Genuine :
      (now : ℕ) (version e nonce signed : List ℕ) (n : ℕ)
      → remaining_of_parts signature auth now version e nonce signed ≡ some n
      → Genuine now (rejoined version (e ∷ nonce ∷ signed ∷ [])) n
  unfolding remaining_of_parts rejoined payload_of
  parts-Genuine now version e nonce signed n h =
      elim (Bool-cases (same_codes version (codes "v1") && is_digits e)) [
        | inr m ↦ absurd (ground arith)
        | inl y ↦
            elim (Bool-cases (
              same_codes signed
                (signature auth.signing_secret (version ++ b'.' ∷ (e ++ b'.' ∷ nonce))))) [
                  | inr m ↦ absurd (ground arith)
                  | inl z ↦
                      let (time, left, short) =
                        until-some now (number_after 0 e) n (ground arith) in
                      record {
                        expires_at = e;
                        nonce = nonce;
                        whole =
                            whole (same_codes→ version (codes "v1") (ground arith))
                              (same_codes→ _ _ z);
                        numeral = ground arith;
                        time = time;
                        left = left;
                        short = short;
                      }
                ]
      ]
    where
      whole :
          version ≡ codes "v1"
          → signed ≡ signature auth.signing_secret (version ++ b'.' ∷ (e ++ b'.' ∷ nonce))
          → rejoined version (e ∷ nonce ∷ signed ∷ [])
            ≡ payload_of e nonce ++ b'.' ∷ signature auth.signing_secret (payload_of e nonce)
      whole v s =
          let own = signature auth.signing_secret (payload_of e nonce) in
          subst₂ (λ a b. rejoined a (e ∷ nonce ∷ b ∷ []) ≡ payload_of e nonce ++ b'.' ∷ own) (sym v)
            (sym (s ∙ ap (λ a. signature auth.signing_secret (a ++ b'.' ∷ (e ++ b'.' ∷ nonce))) v))
            (rw (append_assoc e (b'.' ∷ nonce) (b'.' ∷ own)) refl)

  split-Genuine :
      (now : ℕ) (first : List ℕ) (others : List (List ℕ)) (n : ℕ)
      → remaining_of_split signature auth now (record { first = first; others = others }) ≡ some n
      → Genuine now (rejoined first others) n
  unfolding remaining_of_split
  split-Genuine now first [] n h = cc
  split-Genuine now first (e ∷ []) n h = cc
  split-Genuine now first (e ∷ nonce ∷ []) n h = cc
  split-Genuine now first (e ∷ nonce ∷ signed ∷ []) n h = parts-Genuine now first e nonce signed n h
  split-Genuine now first (e ∷ nonce ∷ signed ∷ more ∷ rest) n h = cc

  -- A cookie for which remaining_seconds answers n is the version v1, a numeral, a nonce and the
  -- signature of these three under the secret, and the numeral is the time n seconds from now,
  -- where n is at least one and at most the lifetime of a session.
  pub remaining-Genuine :
      (now : ℕ) (cookie : List ℕ) (n : ℕ)
      → remaining_seconds signature auth now (some cookie) ≡ some n
      → Genuine now cookie n
  unfolding remaining_seconds
  remaining-Genuine now cookie n h =
      elim (Bool-cases (is_ascii cookie && leb (length cookie) 512)) [
        | inr m ↦ absurd (ground arith)
        | inl y ↦
            let parts = split_at_dots cookie in
            subst (λ c. Genuine now c n) (rejoined-split cookie)
              (split-Genuine now parts.first parts.others n (rw y at h))
      ]
