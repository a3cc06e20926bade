-- ===== src/Base/Texts.antt =====
-- Go's `strings` functions on a separator of one ASCII character, which is given by its code.
use Prim.Native.Char.{Char, code}
use Prim.Native.String.{len, slice}
use text.Mathlib.TextLemmas.{cons-append, nil-append}
use text.Mathlib.TextPositions.{starts_with-append, len-append, slice-append_right}
use ocm_registration.Base.{
  ℕ, String, ◌<>◌, Bool, true, false, List, [], ◌∷◌, ◌≡◌, refl, arith, ◌==◌, nat_eq, ◌||◌,
  starts_with, if◌then◌else◌,
}

-- `strings.TrimPrefix`.
unfoldable pub trim_prefix : String → String → String
trim_prefix s prefix = if starts_with s prefix then slice s (len prefix) (len s) else s

pub trim_prefix-append : (s prefix : String) → trim_prefix (prefix <> s) prefix ≡ s
unfolding trim_prefix
trim_prefix-append s prefix =
    rw (starts_with-append prefix s, len-append prefix s, slice-append_right prefix s) refl

-- The character goes before the first part.
abbrev extend : Char → List String → List String
extend c [] = String.◌∷◌ c String.[] ∷ []
extend c (part ∷ parts) = String.◌∷◌ c part ∷ parts

-- `strings.Split`.
unfoldable pub split : ℕ → String → List String
split sep String.[] = String.[] ∷ []
split sep (String.◌∷◌ c s) =
    let rest = split sep s in if code c == sep then String.[] ∷ rest else extend c rest

-- `strings.ReplaceAll` of one character by one character.
unfoldable pub replace_all : ℕ → Char → String → String
replace_all old new String.[] = String.[]
replace_all old new (String.◌∷◌ c s) =
    String.◌∷◌ (if code c == old then new else c) (replace_all old new s)

unfoldable pub occurs : ℕ → String → Bool
occurs sep String.[] = false
occurs sep (String.◌∷◌ c s) = code c == sep || occurs sep s

pub split_whole : (sep : ℕ) (s : String) → occurs sep s ≡ false → split sep s ≡ s ∷ []
unfolding split occurs
split_whole sep String.[] lacks = refl
split_whole sep (String.◌∷◌ c s) lacks = ground (arith, split_whole sep s, lacks)

-- The text up to the first separator is the first part.
pub split-append :
    (sep : ℕ) (s t : String) (c : Char)
    → occurs sep s ≡ false
    → code c ≡ sep
    → split sep (s <> String.◌∷◌ c t) ≡ s ∷ split sep t
unfolding split occurs
split-append sep String.[] t c lacks is = rw (nil-append (String.◌∷◌ c t)) (ground (arith, is))
split-append sep (String.◌∷◌ d s) t c lacks is =
    rw (cons-append d s (String.◌∷◌ c t)) (ground (arith, split-append sep s t c, lacks, is))

pub occurs-append :
    (sep : ℕ) (s t : String) (c : Char) → code c ≡ sep → occurs sep (s <> String.◌∷◌ c t) ≡ true
unfolding occurs
occurs-append sep String.[] t c is = rw (nil-append (String.◌∷◌ c t)) (ground (arith, is))
occurs-append sep (String.◌∷◌ d s) t c is =
    rw (cons-append d s (String.◌∷◌ c t)) (ground (arith, occurs-append sep s t c is))
