-- ===== src/Observability/References.antt =====
-- Safe references: `_validate_safe_reference` of src/voxbench/observability/observer.py, on the code
-- points of a text.
use voxbench.Base.{
  ℕ, ◌+◌, String, Bool, true, false, not, ◌&&◌, ◌||◌, List, [], ◌∷◌, map, leb, ltb, ◌==◌, length,
  if◌then◌else◌,
}
use voxbench.Base.Text.{codes, strip, same_codes, any_code}

-- `str.lower` on the characters whose lower case may be in a marker: the ASCII letters, and the
-- Kelvin sign, whose lower case is k.
abbrev pub lower : ℕ → ℕ
lower c = if leb 65 c && leb c 90 then c + 32 else if c == 8_490 then 107 else c

unfoldable pub starts_with : List ℕ → List ℕ → Bool
starts_with [] cs = true
starts_with (m ∷ ms) [] = false
starts_with (m ∷ ms) (c ∷ cs) = m == c && starts_with ms cs

-- `marker in value`
unfoldable pub contains : List ℕ → List ℕ → Bool
unfolding starts_with
contains marker [] = starts_with marker []
contains marker (c ∷ cs) = starts_with marker (c ∷ cs) || contains marker cs

-- `_SENSITIVE_REFERENCE_MARKERS`
unfoldable pub has_marker : List ℕ → Bool
unfolding contains
has_marker cs =
    contains (codes "http://") cs
    || contains (codes "https://") cs
    || contains (codes "<@") cs
    || contains (codes "slack://") cs

-- Whether the reference is not refused.
unfoldable pub is_safe_reference : ℕ → String → Bool
unfolding strip same_codes any_code has_marker
is_safe_reference max_length value =
    let cs = codes value in
    leb 1 (length cs)
    && same_codes cs (strip cs)
    && leb (length cs) max_length
    && not (any_code (λ c. ltb c 32) cs)
    && not (has_marker (map lower cs))
