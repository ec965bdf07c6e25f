-- ===== src/Packages/Yaml.antt =====
-- `_scalar` and `parse_manifest_yaml` of backend/maintainer/plugin_system.py: the subset of YAML that manifests
-- are written in. `json.loads` is a parameter.
pub mod Terminates
use maintune.Base.{
  ℕ, zero, suc, ◌+◌, ◌-◌, ◌*◌, ◌%◌, String, Bool, true, false, not, ◌&&◌, ◌||◌, Option, none, some,
  List, [], ◌∷◌, ◌++◌, any, all, map, ltb, leb, length, if◌then◌else◌, ◌==◌, nat_eq,
}
use maintune.Base.Int.{ℤ, pos, negsuc}
use maintune.Base.Result.{Result, ok, err, ◌>>=◌, ◌>>◌, raise_if}
use maintune.Base.Text.{Text, codes, starts_with}
use maintune.Base.Unicode.{Unicode, lstrip, strip, is_digit}
use maintune.Json.{Value, null, bool, dict}
use maintune.Packages.{eq_text, is_empty, has_char}

-- What a manifest holds: JSON where it is written as JSON, and what the subset adds.
mutual
  pub data Yaml : Type 0 where
    json : Value → Yaml
    int : ℤ → Yaml
    text : Text → Yaml
    list : Items → Yaml
    mapping : Entries → Yaml

  pub data Items : Type 0 where
    nil : Items
    cons : Yaml → Items → Items

  pub data Entries : Type 0 where
    end : Entries
    entry : Text → Yaml → Entries → Entries

pub data ParseError : Type 0 where
  out_of_fuel : ParseError
  package_error : String → ParseError
  raised : String → ParseError

-- How `json.loads` fails: with JSONDecodeError, or with another exception.
pub data LoadError : Type 0 where
  decode_error : LoadError
  load_raised : String → LoadError

abbrev pub Parsed : Type 0 → Type 0
Parsed A = Result ParseError A

abbrev fail_if : Bool → String → Parsed (Unit {0})
fail_if b message = raise_if b (package_error message)

-- A line of the manifest: its indentation, and what follows.
abbrev pub Token : Type 0
Token = ℕ × Text

abbrev one_of : List String → Text → Bool
one_of words t = any (λ w. eq_text (codes w) t) words

abbrev ends_with : ℕ → Text → Bool
ends_with d [] = false
ends_with d (c ∷ []) = c == d
ends_with d (c ∷ b ∷ s) = ends_with d (b ∷ s)

-- `s[:-1]`
abbrev but_last : Text → Text
but_last [] = []
but_last (c ∷ []) = []
but_last (c ∷ b ∷ s) = c ∷ but_last (b ∷ s)

-- `value[1:-1]`
abbrev inner : Text → Text
inner [] = []
inner (c ∷ s) = but_last s

-- `s.replace("''", "'")`
abbrev unquote : Text → Text
unquote [] = []
unquote (c ∷ []) = c ∷ []
unquote (c ∷ d ∷ s) = elim (c == 39 && d == 39) [
  | true ↦ 39 ∷ unquote s
  | false ↦ c ∷ unquote (d ∷ s)
]

abbrev number_from : ℕ → Text → ℕ
number_from n [] = n
number_from n (c ∷ s) = number_from (10 * n + (c - 48)) s

abbrev pub negated : ℕ → ℤ
negated zero = pos 0
negated (suc n) = negsuc n

abbrev pub is_number : Text → Bool
is_number [] = false
is_number (c ∷ s) = all is_digit (c ∷ s)

-- `int` of digits: Python refuses more than `sys.get_int_max_str_digits()` of them, which is 4300.
abbrev pub int_of : (ℕ → ℤ) → Text → Parsed ℤ
int_of sign digits =
    if ltb 4300 (length digits) then err (raised "ValueError") else ok (sign (number_from 0 digits))

-- `int(value)` where the value is of the form `-?[0-9]+`
abbrev pub number_of : Text → Option (Parsed ℤ)
number_of [] = none
number_of (c ∷ s) =
    if c == 45
    then if is_number s then some (int_of negated s) else none
    else if is_number (c ∷ s)
    then some (int_of pos (c ∷ s))
    else none

module _ (u : Unicode) (loads : Text → Result LoadError Value) where
  -- `json.loads`, whose JSONDecodeError becomes an error of the package.
  abbrev pub load : String → Text → Parsed Value
  load message t = elim (loads t) [
    | ok v ↦ ok v
    | err decode_error ↦ err (package_error message)
    | err (load_raised e) ↦ err (raised e)
  ]

  abbrev pub stripped_scalar : Text → Parsed Yaml
  stripped_scalar value =
      if is_empty value
      then ok (json null)
      else if one_of ("true" ∷ "True" ∷ []) value
      then ok (json (bool true))
      else if one_of ("false" ∷ "False" ∷ []) value
      then ok (json (bool false))
      else if one_of ("null" ∷ "Null" ∷ "~" ∷ []) value
      then ok (json null)
      else if starts_with value (codes "[")
          || starts_with value (codes "{")
          || starts_with value (34 ∷ [])
      then (load "Invalid JSON-compatible YAML scalar" value >>= λ v. ok (json v))
      else if starts_with value (codes "'") && ends_with 39 value
      then ok (text (unquote (inner value)))
      else elim (number_of value) [
        | none ↦ ok (text value)
        | some number ↦ number >>= λ z. ok (int z)
      ]

  -- `_scalar`
  unfoldable pub scalar : Text → Parsed Yaml
  scalar value = stripped_scalar (strip u value)

  -- `line.split(":", 1)`: what stands before and after the first colon.
  abbrev pub split_colon : Text → Option (Text × Text)
  split_colon [] = none
  split_colon (c ∷ s) =
      let rest = split_colon s in
      if c == 58
      then some ([], s)
      else elim rest [ none ↦ none | some (key, value) ↦ some (c ∷ key, value) ]

  abbrev is_key_start : ℕ → Bool
  is_key_start c = (leb 65 c && leb c 90) || (leb 97 c && leb c 122) || c == 95

  -- [A-Za-z_][A-Za-z0-9_-]{0,99}
  abbrev is_key : Text → Bool
  is_key [] = false
  is_key (c ∷ s) =
      is_key_start c && all (λ d. is_key_start d || is_digit d || d == 45) s && leb (length s) 99

  abbrev pub is_item : Text → Bool
  is_item line = starts_with line (codes "- ")

  abbrev pub item_value : Text → Text
  item_value [] = []
  item_value (c ∷ []) = []
  item_value (c ∷ d ∷ s) = s

  -- The loop of `block` over a list.
  unfoldable pub list_block : ℕ → List Token → Parsed (Items × List Token)
  list_block indent [] = ok (nil, [])
  list_block indent ((current, line) ∷ tokens) =
      let more = (do
        fail_if (ltb indent current || not (is_item line))
            "Invalid manifest indentation or mixed collection"
        value ← scalar (item_value line)
        rest ← list_block indent tokens
        ok (cons value rest.0, rest.1)) in
      if ltb current indent then ok (nil, (current, line) ∷ tokens) else more

  abbrev pub checked_key : List Text → Option (Text × Text) → Parsed (Text × Text)
  checked_key seen none = err (package_error "Manifest mapping entry is missing ':'")
  checked_key seen (some (raw_key, raw_value)) =
      let key = strip u raw_key in
      fail_if (not (is_key key) || any (eq_text key) seen) "Invalid or duplicate manifest key"
      >> ok (key, raw_value)

  abbrev pub is_deeper : ℕ → List Token → Bool
  is_deeper indent [] = false
  is_deeper indent ((next, line) ∷ tokens) = ltb indent next

  abbrev pub indent_of : List Token → ℕ
  indent_of [] = 0
  indent_of ((next, line) ∷ tokens) = next

  abbrev pub starts_list : List Token → Bool
  starts_list [] = false
  starts_list ((next, line) ∷ tokens) = is_item line

  -- The loop of `block` over a mapping whose keys so far are `seen`. A nested block is read by the same loop.
  unfoldable pub mapping_block : ℕ → ℕ → List Text → List Token → Parsed (Entries × List Token)
  unfolding list_block
  mapping_block fuel indent seen [] = ok (end, [])
  mapping_block zero indent seen (token ∷ tokens) = err out_of_fuel
  mapping_block (suc fuel) indent seen ((current, line) ∷ tokens) =
      let nested : Parsed (Yaml × List Token) =
        if starts_list tokens
        then (list_block (indent_of tokens) tokens >>= λ r. ok (list r.0, r.1))
        else (mapping_block fuel (indent_of tokens) [] tokens >>= λ r. ok (mapping r.0, r.1)) in
      let more = (do
        fail_if (ltb indent current || is_item line)
            "Invalid manifest indentation or mixed collection"
        pair ← checked_key seen (split_colon line)
        value ←
            (if not (is_empty (strip u pair.1))
              then (scalar pair.1 >>= λ v. ok (v, tokens))
              else if is_deeper indent tokens
              then nested
              else ok (mapping end, tokens))
        rest ← mapping_block fuel indent (pair.0 ∷ seen) value.1
        ok (entry pair.0 value.0 rest.0, rest.1)) in
      if ltb current indent then ok (end, (current, line) ∷ tokens) else more

  -- `block`
  unfoldable pub block : ℕ → ℕ → List Token → Parsed (Yaml × List Token)
  unfolding mapping_block
  block fuel indent tokens =
      if starts_list tokens
      then (list_block indent tokens >>= λ r. ok (list r.0, r.1))
      else (mapping_block fuel indent [] tokens >>= λ r. ok (mapping r.0, r.1))

  abbrev is_line_end : ℕ → Bool
  is_line_end c =
      (leb 10 c && leb c 13) || (leb 28 c && leb c 30) || c == 0x85 || c == 0x2028 || c == 0x2029

  -- `text.splitlines()`: the rest of a line, and whether a carriage return stands before it.
  abbrev pub lines_from : Bool → Text → Text → List Text
  lines_from after_cr [] [] = []
  lines_from after_cr (p ∷ piece) [] = (p ∷ piece) ∷ []
  lines_from after_cr piece (c ∷ s) = elim (after_cr && c == 10) [
    | true ↦ lines_from false piece s
    | false ↦ elim (is_line_end c) [
      | true ↦ piece ∷ lines_from (c == 13) [] s
      | false ↦ lines_from false (piece ++ c ∷ []) s
    ]
  ]

  -- `len(raw) - len(raw.lstrip(" "))`
  abbrev pub leading_spaces : Text → ℕ
  leading_spaces [] = 0
  leading_spaces (c ∷ s) = let more = leading_spaces s in if c == 32 then suc more else 0

  abbrev pub is_skipped : Text → Bool
  is_skipped stripped = is_empty stripped || starts_with stripped (codes "#")

  -- The loop over the lines.
  unfoldable pub tokenize : List Text → Parsed (List Token)
  tokenize [] = ok []
  tokenize (raw ∷ lines) = do
    fail_if (has_char 9 raw) "Tabs are not allowed in manifest"
    let stripped = strip u raw
    fail_if (not (is_skipped stripped) && leading_spaces raw % 2 == 1)
        "Manifest indentation must use two spaces"
    tokens ← tokenize lines
    ok (if is_skipped stripped then tokens else (leading_spaces raw, stripped) ∷ tokens)

  abbrev pub json_mapping : Value → Parsed Yaml
  json_mapping (dict fs) = ok (json (dict fs))
  json_mapping v = err (package_error "Manifest root must be a mapping")

  abbrev pub root_mapping : Yaml × List Token → Parsed Yaml
  root_mapping (mapping fs, []) = ok (mapping fs)
  root_mapping r = err (package_error "Manifest root must be a mapping")

  unfoldable pub parse_tokens : List Token → Parsed Yaml
  unfolding block
  parse_tokens [] = err (package_error "Manifest is empty")
  parse_tokens (token ∷ tokens) =
      block (suc (suc (length tokens))) token.0 (token ∷ tokens) >>= root_mapping

  -- `parse_manifest_yaml`
  unfoldable pub parse_manifest_yaml : Text → Parsed Yaml
  unfolding tokenize parse_tokens
  parse_manifest_yaml source =
      if starts_with (lstrip u source) (codes "{")
      then (load "Invalid manifest" source >>= json_mapping)
      else (tokenize (lines_from false [] source) >>= parse_tokens)
