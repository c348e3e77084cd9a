-- ===== src/Alias.antt =====
-- Safe aliases: the texts that may name a worker or a failure.
-- src: src/voxbench/control_plane/job_queue.py `_validate_alias`, run_worker.py `_is_safe_alias`.
use voxbench.Base.{ℕ, String, Bool, ◌&&◌, ◌||◌, leb, ltb, ◌==◌, length}
use voxbench.Base.Text.{codes, all_codes}

-- `character.isalnum()` of an ASCII character.
is_ascii_alnum : ℕ → Bool
is_ascii_alnum c =
    (leb b'0' c && leb c b'9') || (leb b'A' c && leb c b'Z') || (leb b'a' c && leb c b'z')

is_alias_code : ℕ → Bool
unfolding is_ascii_alnum
is_alias_code c = is_ascii_alnum c || c == b'-' || c == b'_' || c == b'.'

-- Between 1 and 128 characters, all ASCII, all letters, digits or one of `-_.`.
unfoldable pub is_safe_alias : String → Bool
unfolding all_codes is_alias_code
is_safe_alias value =
    let cs = codes value in
    leb 1 (length cs)
    && leb (length cs) 128
    && all_codes (λ c. ltb c 128) cs
    && all_codes is_alias_code cs
