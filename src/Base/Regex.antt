-- ===== src/Base/Regex.antt =====
-- The part of Python's `re` that the patterns of the program use, as a backtracking matcher. The
-- matcher only tells whether there is a match, so greediness plays no part. Letters are compared
-- as `re.IGNORECASE` does, which is the parameter `same_letter`.
use Prim.Native.Nat.{ℕ, zero, suc}
use mathlib.Core.Bool.{Bool, true, false, not, xor, ◌&&◌, ◌||◌}
use mathlib.Core.Option.{Option, none, some}
use mathlib.Core.List.{List, [], ◌∷◌}
use Prim.Native.String.{String}
use maintune.Base.Tests.{leb, if◌then◌else◌}
use maintune.Base.Lists.{length, any}
use maintune.Base.Equality.{◌==◌, contains, nat_eq}
use maintune.Base.Text.{Text, codes}
use maintune.Base.Unicode.{Unicode}

pub data Re : Type 0 where
  empty : Re
  char : ℕ → Re
  -- `.`, which is any character but a newline
  dot : Re
  -- `[\s…a-b]`: spaces, the characters listed, and one range
  space_or : Text → ℕ → ℕ → Re
  -- `[a-bc-d]`
  ranges : List (ℕ × ℕ) → Re
  seq : Re → Re → Re
  alt : Re → Re → Re
  star : Re → Re
  -- `\b`
  boundary : Re

-- The characters of a literal, one after the other.
abbrev pub literal_codes : Text → Re
literal_codes [] = empty
literal_codes (c ∷ s) = seq (char c) (literal_codes s)

abbrev pub literal : String → Re
literal s = literal_codes (codes s)

-- `a|b|c`
abbrev pub any_of : Re → List Re → Re
any_of r [] = r
any_of r (q ∷ qs) = alt r (any_of q qs)

-- `a+`
abbrev pub plus : Re → Re
plus r = seq r (star r)

-- `a.*b`
abbrev pub then_later : Re → Re → Re
then_later r q = seq r (seq (star dot) q)

module _ (u : Unicode) (same_letter : ℕ → ℕ → Bool) where
  -- What is tried on the rest of the text: it sees the character before it.
  abbrev Rest : Type 0
  Rest = Option ℕ → Text → Bool

  abbrev Matcher : Type 0
  Matcher = Option ℕ → Text → Rest → Bool

  one_char : (ℕ → Bool) → Matcher
  one_char test prev [] rest = false
  one_char test prev (c ∷ s) rest = elim (test c) [ true ↦ rest (some c) s | false ↦ false ]

  -- No more rounds can be of use than there are characters left.
  star_loop : ℕ → Matcher → Matcher
  star_loop zero m prev s rest = rest prev s
  star_loop (suc n) m prev s rest = elim (rest prev s) [
    | true ↦ true
    | false ↦ m prev s (λ p t. star_loop n m p t rest)
  ]

  abbrev word_at : Option ℕ → Bool
  word_at none = false
  word_at (some c) = u.is_word c

  abbrev first : Text → Option ℕ
  first [] = none
  first (c ∷ s) = some c

  unfoldable pub matches : Re → Matcher
  unfolding one_char star_loop xor
  matches empty prev s rest = rest prev s
  matches (char c) prev s rest = one_char (same_letter c) prev s rest
  matches dot prev s rest = one_char (λ c. not (c == 10)) prev s rest
  matches (space_or cs lo hi) prev s rest =
      one_char (λ c. u.is_space c || contains cs c || leb lo c && leb c hi) prev s rest
  matches (ranges rs) prev s rest =
      one_char (λ c. any (λ (lo, hi). leb lo c && leb c hi) rs) prev s rest
  matches (seq r q) prev s rest = matches r prev s (λ p t. matches q p t rest)
  matches (alt r q) prev s rest =
      let second = matches q prev s rest in
      elim (matches r prev s rest) [ true ↦ true | false ↦ second ]
  matches (star r) prev s rest = star_loop (length s) (matches r) prev s rest
  matches boundary prev s rest =
      if xor (word_at prev) (word_at (first s)) then rest prev s else false

  abbrev at_end : Rest
  at_end prev [] = true
  at_end prev (c ∷ s) = false

  -- `re.fullmatch`
  unfoldable pub fullmatch : Re → Text → Bool
  unfolding matches
  fullmatch r s = matches r none s at_end

  search_from : Re → Option ℕ → Text → Bool
  unfolding matches
  search_from r prev [] = matches r prev [] (λ p t. true)
  search_from r prev (c ∷ s) =
      let later = search_from r (some c) s in
      elim (matches r prev (c ∷ s) (λ p t. true)) [ true ↦ true | false ↦ later ]

  -- `re.search`
  unfoldable pub search_text : Re → Text → Bool
  unfolding search_from
  search_text r s = search_from r none s
