-- ===== src/Base/Unicode.antt =====
-- The Unicode tables of the Python runtime, which are data outside the program: a parameter of
-- what uses them. `ascii` is the part that plain English text meets.
use Prim.Native.Nat.{ℕ, ◌+◌}
use mathlib.Core.Bool.{Bool, ◌&&◌, ◌||◌}
use mathlib.Core.List.{[], ◌∷◌, ◌++◌, reverse}
use maintune.Base.Tests.{leb, if◌then◌else◌}
use maintune.Base.Equality.{◌==◌, nat_eq}
use maintune.Base.Text.{Text}

pub record Unicode : Type 0 where
  -- `str.lower` and `str.casefold` of one character
  pub lower : ℕ → Text
  pub casefold : ℕ → Text
  -- `str.isspace`, `\w` and `str.islower`
  pub is_space : ℕ → Bool
  pub is_word : ℕ → Bool
  pub is_lower : ℕ → Bool

abbrev is_upper_ascii : ℕ → Bool
is_upper_ascii c = leb 65 c && leb c 90

abbrev is_lower_ascii : ℕ → Bool
is_lower_ascii c = leb 97 c && leb c 122

abbrev pub is_digit : ℕ → Bool
is_digit c = leb 48 c && leb c 57

abbrev lower_ascii : ℕ → Text
lower_ascii c = (if is_upper_ascii c then c + 32 else c) ∷ []

abbrev pub ascii : Unicode
ascii = record {
  lower = lower_ascii;
  casefold = lower_ascii;
  is_space = λ c. (leb 9 c && leb c 13) || c == 32;
  is_word = λ c. is_upper_ascii c || is_lower_ascii c || is_digit c || c == 95;
  is_lower = is_lower_ascii;
}

module _ (u : Unicode) where
  -- `s.lower()`
  abbrev pub lower : Text → Text
  lower [] = []
  lower (c ∷ s) = u.lower c ++ lower s

  -- `s.casefold()`
  abbrev pub casefold : Text → Text
  casefold [] = []
  casefold (c ∷ s) = u.casefold c ++ casefold s

  -- `s.lstrip()` and `s.strip()`
  abbrev pub lstrip : Text → Text
  lstrip [] = []
  lstrip (c ∷ s) = let rest = lstrip s in if u.is_space c then rest else c ∷ s

  abbrev pub strip : Text → Text
  strip s = reverse (lstrip (reverse (lstrip s)))
