-- ===== src/Roe/Patterns.antt =====
-- recon/core/roe.py: `_HOSTNAME_RE` and `_PLAIN_HOST_RE`.
use recon_platform.Prelude.{
  ℕ, leb, ◌==◌, Bool, true, false, ◌&&◌, ◌||◌, List, [], ◌∷◌, length, all, if◌then◌else◌,
}
use recon_platform.Prelude.Text.{
  Text, text, is_empty, is_alpha, is_digit, starts_with, split, between,
}

-- What `$` leaves out: one line feed at the end.
unfoldable pub chomp : Text → Text
chomp [] = []
chomp (c ∷ s) = if c == 10 && is_empty s then [] else c ∷ chomp s

abbrev pub word_char : ℕ → Bool
word_char c = is_alpha c || is_digit c || c == b'_'

-- The last character is no hyphen.
unfoldable pub ends_in_word : Text → Bool
ends_in_word [] = true
ends_in_word (c ∷ s) = if is_empty s then word_char c else ends_in_word s

-- `[a-zA-Z0-9_](?:[a-zA-Z0-9_-]{0,61}[a-zA-Z0-9_])?`
unfoldable pub is_label : Text → Bool
unfolding ends_in_word
is_label [] = false
is_label (c ∷ s) =
    word_char c && all (λ d. word_char d || d == b'-') s && ends_in_word s && leb (length s) 62

-- One label at least, and behind the last dot `[a-zA-Z]{2,63}`.
unfoldable pub are_labels : Bool → List Text → Bool
unfolding is_label
are_labels after [] = false
are_labels after (s ∷ []) = after && all is_alpha s && between 2 63 (length s)
are_labels after (s ∷ t ∷ parts) = is_label s && are_labels true (t ∷ parts)

-- `_PLAIN_HOST_RE`
unfoldable pub plain_host : Text → Bool
unfolding are_labels chomp split
plain_host s = between 1 253 (length (chomp s)) && are_labels false (split b'.' (chomp s))

abbrev pub behind_wildcard : Text → Text
behind_wildcard (_ ∷ _ ∷ s) = s
behind_wildcard s = s

-- `_HOSTNAME_RE`
unfoldable pub domain_pattern : Text → Bool
unfolding are_labels chomp split starts_with
domain_pattern s =
    let host = if starts_with s (text "*.") then behind_wildcard (chomp s) else chomp s in
    between 1 253 (length (chomp s)) && are_labels false (split b'.' host)
