-- ===== src/Packages/Yaml/Terminates.antt =====
-- The fuel of the parser of manifests.
use maintune.Base.{
  ℕ, zero, suc, ◌≤◌, ◌<◌, ◌≡◌, refl, Bool, true, false, not, ◌||◌, ◌&&◌, ◌%◌, ◌==◌, nat_eq, List,
  [], ◌∷◌, arith, length, ltb, if◌then◌else◌, Option, none, some, String,
}
use maintune.Base.Result.{Result, ok, err, ◌>>=◌, ◌>>◌, raise_if}
use maintune.Base.Text.{Text, codes, starts_with}
use maintune.Base.Unicode.{Unicode, strip, lstrip}
use maintune.Base.Int.{ℤ, pos}
use maintune.Json.{Value, dict, Fields}
use maintune.Packages.{is_empty, has_char}
use maintune.Packages.Yaml.{
  raised, load, int_of, is_number, negated, LoadError, decode_error, load_raised, Entries, Yaml,
  nil, cons, end, entry, number_of, json, int, text, list, mapping, package_error, Parsed, Token,
  stripped_scalar, scalar, item_value, list_block, mapping_block, checked_key, split_colon,
  parse_tokens, tokenize, parse_manifest_yaml, root_mapping, is_deeper, is_item, is_skipped,
  leading_spaces, json_mapping, lines_from, starts_list, indent_of,
}

-- How a reader ends: with a value that satisfies P, with an error of the package, or with an
-- exception of E, but never for want of fuel.
pub data Ends {A : Type 0} (E : String → Type 0) (P : A → Type 0) : Parsed A → Type 0 where
  returns : (a : A) → P a → Ends E P (ok a)
  raises : (e : String) → Ends E P (err (package_error e))
  propagates : (e : String) → E e → Ends E P (err (raised e))

Ends-bind :
    {A B : Type 0} {E : String → Type 0} {P : A → Type 0} {Q : B → Type 0} {m : Parsed A}
    {f : A → Parsed B}
    → Ends E P m
    → ((a : A) → P a → Ends E Q (f a))
    → Ends E Q (m >>= f)
Ends-bind (returns a holds) next = next a holds
Ends-bind (raises e) next = raises e
Ends-bind (propagates e why) next = propagates e why

Ends-check :
    {B : Type 0} {E : String → Type 0} {Q : B → Type 0} (b : Bool) (e : String) {rest : Parsed B}
    → Ends E Q rest
    → Ends E Q (raise_if b (package_error e) >> rest)
Ends-check true e ends = raises e
Ends-check false e ends = ends

Ends-if :
    {B : Type 0} {E : String → Type 0} {Q : B → Type 0} (b : Bool) {x y : Parsed B}
    → Ends E Q x
    → Ends E Q y
    → Ends E Q (if b then x else y)
Ends-if true here there = here
Ends-if false here there = there

ruleset ends = (Ends-if, Ends-check, returns, raises, tt)

-- The exceptions that are no errors of the package: of `int` for a number that is too long, and of `json.loads`.
pub data Raised (loads : Text → Result LoadError Value) : String → Type 0 where
  too_long : Raised loads "ValueError"
  of_loads : (t : Text) (e : String) → loads t ≡ err (load_raised e) → Raised loads e

pub data IsMapping : Yaml → Type 0 where
  of_block : (fs : Entries) → IsMapping (mapping fs)
  of_json : (fs : Fields) → IsMapping (json (dict fs))

abbrev Anything : {A : Type 0} → A → Type 0
Anything a = Unit {0}

-- No more tokens are left than there were.
abbrev Leaves : {A : Type 0} → List Token → A × List Token → Type 0
Leaves tokens r = length r.1 ≤ length tokens

module _ (u : Unicode) (loads : Text → Result LoadError Value) where
  load-Ends : (message : String) (t : Text) → Ends (Raised loads) Anything (load u loads message t)
  load-Ends message t = by_result (loads t) refl
    where
      by_result :
          (r : Result LoadError Value)
          → loads t ≡ r
          → Ends {A = Value} (Raised loads) Anything (elim r [
            | ok v ↦ ok v
            | err decode_error ↦ err (package_error message)
            | err (load_raised e) ↦ err (raised e)
          ])
      by_result (ok v) h = returns v tt
      by_result (err decode_error) h = raises message
      by_result (err (load_raised e)) h = propagates e (of_loads t e h)

  loaded-Ends :
      (message : String) (t : Text)
      → Ends (Raised loads) Anything (load u loads message t >>= λ v. ok (json v))
  loaded-Ends message t = Ends-bind (load-Ends message t) λ v any. returns _ tt

  int_of-Ends :
      (sign : ℕ → ℤ) (t : Text) → Ends (Raised loads) Anything (int_of sign t >>= λ z. ok (int z))
  int_of-Ends sign t =
      Ends-bind {P = Anything}
        (Ends-if (ltb 4300 (length t)) (propagates _ too_long) (returns _ tt)) λ z any. returns _ tt

  -- A text that is no number, or a number of one of two signs.
  either-Ends :
      (t u : Text) (b p q : Bool) (x y : ℕ → ℤ)
      → Ends
          (Raised loads)
          Anything
          (elim (if b
              then if p then some (int_of x t) else none
              else if q
              then some (int_of y u)
              else none)
            as (λ n. Parsed Yaml) [ none ↦ ok (text u) | some number ↦ number >>= λ z. ok (int z) ])
  either-Ends t u true true q x y = int_of-Ends x t
  either-Ends t u true false q x y = returns _ tt
  either-Ends t u false p true x y = int_of-Ends y u
  either-Ends t u false p false x y = returns _ tt

  number-Ends :
      (t : Text)
      → Ends (Raised loads) Anything (elim (number_of t) as (λ x. Parsed Yaml) [
        | none ↦ ok (text t)
        | some number ↦ number >>= λ z. ok (int z)
      ])
  number-Ends [] = returns _ tt
  number-Ends (c ∷ s) =
      either-Ends s (c ∷ s) (c == 45) (is_number s) (is_number (c ∷ s)) negated (λ n. pos n)

  stripped-Ends : (t : Text) → Ends (Raised loads) Anything (stripped_scalar u loads t)
  stripped-Ends t = search (ends, loaded-Ends _ t, number-Ends t) depth 16

  scalar-Ends : (t : Text) → Ends (Raised loads) Anything (scalar u loads t)
  unfolding scalar
  scalar-Ends t = stripped-Ends (strip u t)

  list_block-Ends :
      (indent : ℕ) (tokens : List Token)
      → Ends (Raised loads) (Leaves tokens) (list_block u loads indent tokens)
  unfolding list_block
  list_block-Ends indent [] = returns _ (omega arith)
  list_block-Ends indent ((current, line) ∷ tokens) =
      let item : Ends (Raised loads) (Leaves ((current, line) ∷ tokens)) (
          scalar u loads (item_value u loads line) >>= λ value.
          list_block u loads indent tokens >>= λ rest. ok (cons value rest.0, rest.1)) =
        Ends-bind (scalar-Ends _) λ value any.
          Ends-bind (list_block-Ends indent tokens) λ rest fewer. returns _ (omega arith) in
      let none_read : Ends (Raised loads) (Leaves ((current, line) ∷ tokens))
          (ok (nil, (current, line) ∷ tokens)) =
        returns _ (omega arith) in
      search (ends, item, none_read)

  checked_key-Ends :
      (seen : List Text) (pair : Option (Text × Text))
      → Ends (Raised loads) Anything (checked_key u loads seen pair)
  checked_key-Ends seen none = raises _
  checked_key-Ends seen (some (key, value)) = search ends

  -- The loop over a mapping ends where the fuel exceeds the tokens.
  mapping_block-Ends :
      (fuel indent : ℕ) (seen : List Text) (tokens : List Token)
      → length tokens < fuel
      → Ends (Raised loads) (Leaves tokens) (mapping_block u loads fuel indent seen tokens)
  unfolding mapping_block
  mapping_block-Ends fuel indent seen [] enough = returns _ (omega arith)
  mapping_block-Ends zero indent seen (token ∷ tokens) enough = absurd (omega arith)
  mapping_block-Ends (suc fuel) indent seen ((current, line) ∷ tokens) enough =
      let listed : Ends (Raised loads) (Leaves tokens)
          (list_block u loads (indent_of u loads tokens) tokens >>= λ r. ok (list r.0, r.1)) =
        Ends-bind (list_block-Ends (indent_of u loads tokens) tokens) λ r fewer. returns _ fewer in
      let mapped : Ends (Raised loads) (Leaves tokens) (
          mapping_block u loads fuel (indent_of u loads tokens) [] tokens >>= λ r.
          ok (mapping r.0, r.1)) =
        Ends-bind (mapping_block-Ends fuel (indent_of u loads tokens) [] tokens (omega arith))
          λ r fewer. returns _ fewer in
      let scalars : (t : Text)
          → Ends (Raised loads) (Leaves tokens) (scalar u loads t >>= λ v. ok (v, tokens)) =
        λ t. Ends-bind (scalar-Ends t) λ v any. returns _ (omega arith) in
      let empty : Ends (Raised loads) (Leaves tokens) (ok (mapping end, tokens)) =
        returns _ (omega arith) in
      let none_read : Ends (Raised loads) (Leaves ((current, line) ∷ tokens))
          (ok (end, (current, line) ∷ tokens)) =
        returns _ (omega arith) in
      let after : (key : Text) (value : Yaml × List Token)
          → Leaves tokens value
          → Ends (Raised loads) (Leaves ((current, line) ∷ tokens)) (
              mapping_block u loads fuel indent (key ∷ seen) value.1 >>= λ rest.
              ok (entry key value.0 rest.0, rest.1)) =
        λ key value fewer.
          Ends-bind (mapping_block-Ends fuel indent (key ∷ seen) value.1 (omega arith))
            λ rest less. returns _ (omega arith) in
      let read_value = λ (raw : Text). Ends-if (not (is_empty (strip u raw))) (scalars raw) (
        Ends-if (is_deeper u loads indent tokens)
          (Ends-if (starts_list u loads tokens) listed mapped) empty) in
      Ends-if (ltb current indent) none_read (
        Ends-check (ltb indent current || is_item u loads line) _ (
          Ends-bind (checked_key-Ends seen (split_colon u loads line))
            λ pair any. Ends-bind (read_value pair.1) λ value fewer. after pair.0 value fewer))

  root_mapping-Ends :
      (r : Yaml × List Token) → Ends (Raised loads) IsMapping (root_mapping u loads r)
  root_mapping-Ends (mapping fs, []) = returns _ (of_block fs)
  root_mapping-Ends (mapping fs, token ∷ tokens) = raises _
  root_mapping-Ends (json v, left) = raises _
  root_mapping-Ends (int z, left) = raises _
  root_mapping-Ends (text t, left) = raises _
  root_mapping-Ends (list xs, left) = raises _

  parse_tokens-Ends :
      (tokens : List Token) → Ends (Raised loads) IsMapping (parse_tokens u loads tokens)
  unfolding parse_tokens
  parse_tokens-Ends [] = raises _
  parse_tokens-Ends (token ∷ tokens) =
      Ends-bind {P = Leaves (token ∷ tokens)}
        (Ends-if (starts_list u loads (token ∷ tokens))
          (Ends-bind (list_block-Ends token.0 (token ∷ tokens)) λ r fewer. returns _ fewer)
          (Ends-bind
            (mapping_block-Ends (suc (suc (length tokens))) token.0 [] (token ∷ tokens)
              (omega arith))
            λ r fewer. returns _ fewer))
        λ r fewer. root_mapping-Ends r

  tokenize-Ends : (lines : List Text) → Ends (Raised loads) Anything (tokenize u loads lines)
  unfolding tokenize
  tokenize-Ends [] = returns _ tt
  tokenize-Ends (raw ∷ lines) = Ends-check (has_char 9 raw) _ (
      Ends-check (not (is_skipped u loads (strip u raw)) && leading_spaces u loads raw % 2 == 1) _
        (Ends-bind (tokenize-Ends lines) λ tokens any. returns _ tt))

  json_mapping-Ends : (v : Value) → Ends (Raised loads) IsMapping (json_mapping u loads v)
  json_mapping-Ends v = elim v as (λ w. Ends (Raised loads) IsMapping (json_mapping u loads w)) [
    | dict fs ↦ returns _ (of_json fs)
    | _ ↦ raises _
  ]

  -- The parser reads every text to an end and never lacks fuel: it gives a mapping, an error of the package, the
  -- ValueError of an integer that is too long, or an exception of `json.loads` other than JSONDecodeError.
  pub parse_manifest_yaml_terminates :
      (source : Text) → Ends (Raised loads) IsMapping (parse_manifest_yaml u loads source)
  unfolding parse_manifest_yaml
  parse_manifest_yaml_terminates source =
      Ends-if (starts_with (lstrip u source) (codes "{"))
        (Ends-bind (load-Ends "Invalid manifest" source) λ v any. json_mapping-Ends v)
        (Ends-bind (tokenize-Ends (lines_from u loads false [] source))
          λ tokens any. parse_tokens-Ends tokens)
