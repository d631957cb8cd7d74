-- ===== src/Panel/Names.antt =====
-- The names that the handlers accept: the regular expressions of panel/api, by clauses on the
-- characters of a text. `len` counts bytes, as Go's does.
use Prim.Native.Char.{Char, code}
use Prim.Native.String.{String, [], ◌∷◌, len, count, find}
use fox_fleet.Prelude.{ℕ, Bool, true, false, not, ◌&&◌, ◌||◌, ltb, leb, ◌==◌, if◌then◌else◌}

abbrev between : ℕ → ℕ → Char → Bool
between a b c = leb a (code c) && leb (code c) b

abbrev pub is_char : ℕ → Char → Bool
is_char a c = a == code c

-- [a-z0-9]
abbrev pub is_lower_alnum : Char → Bool
is_lower_alnum c = between b'a' b'z' c || between b'0' b'9' c

-- [a-zA-Z0-9]
abbrev pub is_alnum : Char → Bool
is_alnum c = is_lower_alnum c || between b'A' b'Z' c

abbrev pub is_slug_char : Char → Bool
is_slug_char c = is_lower_alnum c || is_char b'-' c

abbrev pub is_id_char : Char → Bool
is_id_char c = is_alnum c || is_char b'.' c || is_char b'_' c || is_char b'-' c

unfoldable pub all_chars : (Char → Bool) → String → Bool
all_chars p [] = true
all_chars p (c ∷ s) = p c && all_chars p s

abbrev pub first_char : (Char → Bool) → String → Bool
first_char p [] = false
first_char p (c ∷ s) = p c

unfoldable pub last_char : (Char → Bool) → String → Bool
last_char p [] = false
last_char p (c ∷ []) = p c
last_char p (c ∷ d ∷ s) = last_char p (d ∷ s)

-- `strings.Contains`
abbrev pub contains : String → String → Bool
contains s t = leb (find s t) (len s)

-- ^[a-z0-9]([a-z0-9-]{0,61}[a-z0-9])?$
unfoldable pub valid_cloud_username : String → Bool
unfolding all_chars last_char
valid_cloud_username s =
    all_chars is_slug_char s
    && first_char is_lower_alnum s
    && last_char is_lower_alnum s
    && leb (count s) 63

-- ^[a-zA-Z0-9][a-zA-Z0-9._-]{0,63}$
unfoldable pub valid_instance_id : String → Bool
unfolding all_chars
valid_instance_id s = all_chars is_id_char s && first_char is_alnum s && leb (count s) 64

-- ^[a-z0-9][a-z0-9-]{0,61}[a-z0-9]$
unfoldable pub valid_slug : String → Bool
unfolding all_chars last_char
valid_slug s =
    all_chars is_slug_char s
    && first_char is_lower_alnum s
    && last_char is_lower_alnum s
    && leb 2 (count s)
    && leb (count s) 63

unfoldable pub is_valid_slug : String → Bool
unfolding valid_slug
is_valid_slug s =
    if len s == 0 || ltb 63 (len s)
    then false
    else if len s == 1
    then first_char is_lower_alnum s
    else valid_slug s && not (contains s "--")
