-- ===== src/Packages/Archive.antt =====
-- `PluginPackageManager.validate` of backend/maintainer/plugin_system.py: the checks of the listing of an archive, and
-- of a manifest against it. The versions of Maintune are left out; a manifest is parsed in Yaml.antt.
pub mod Safe
use maintune.Base.{
  ℕ, ◌+◌, ◌*◌, String, Bool, false, not, ◌&&◌, ◌||◌, Option, none, some, List, [], ◌∷◌, any, map,
  ltb, length,
}
use maintune.Base.Result.{Result, ok, ◌>>=◌, ◌>>◌, raise_if}
use maintune.Base.Text.{Text, codes, starts_with, join, replace_char}
use maintune.Base.Unicode.{Unicode, casefold}
use maintune.Packages.{
  Valid, eq_text, is_empty, path_parts, PluginManifest, is_legacy, ZipInfo, safe_member,
}

abbrev pub includes : List Text → Text → Bool
includes names name = any (eq_text name) names

abbrev ends_with_slash : Text → Bool
ends_with_slash [] = false
ends_with_slash (c ∷ []) = eq_text (c ∷ []) (codes "/")
ends_with_slash (c ∷ d ∷ s) = ends_with_slash (d ∷ s)

-- `name.startswith("src/") and not name.endswith("/")`
abbrev pub is_source_file : Text → Bool
is_source_file name = starts_with name (codes "src/") && not (ends_with_slash name)

abbrev last_part : List Text → Text
last_part [] = []
last_part (p ∷ []) = p
last_part (p ∷ q ∷ ps) = last_part (q ∷ ps)

abbrev script_names : List Text
script_names = map codes ("install.py" ∷ "setup.sh" ∷ "post_install.py" ∷ [])

module _ (u : Unicode) where
  -- The loop over the members: the names `seen` so far and their folded forms, and the `total` so far.
  unfoldable pub check_members :
      List Text → List Text → ℕ → List ZipInfo → Result String (List Text)
  check_members seen seen_folded total [] = ok seen
  check_members seen seen_folded total (info ∷ infos) = do
    parts ← safe_member u info
    let normalized = join 47 parts
    raise_if (includes seen normalized || includes seen_folded (casefold u normalized))
        "Plugin package contains duplicate paths"
    raise_if (ltb (50 * 1024 * 1024) (total + info.file_size))
        "Plugin package expands beyond the size limit"
    check_members (normalized ∷ seen) (casefold u normalized ∷ seen_folded) (total + info.file_size)
        infos

  -- The names of the archive, where its listing is accepted.
  unfoldable pub check_listing : List ZipInfo → Result String (List Text)
  check_listing infos = do
    raise_if (ltb 512 (length infos)) "Plugin package has too many files"
    seen ← check_members [] [] 0 infos
    raise_if (not (includes seen (codes "manifest.yaml"))) "Plugin package is missing manifest.yaml"
    raise_if (not (any is_source_file seen)) "Plugin package is missing source files"
    ok seen

  abbrev is_script : Text → Bool
  is_script name = any (eq_text (casefold u (last_part (path_parts name)))) script_names

  -- `value and value not in seen`
  abbrev is_missing : List Text → Option Text → Bool
  is_missing seen none = false
  is_missing seen (some name) = not (is_empty name) && not (includes seen name)

  abbrev is_missing_ui : List Text → Option Text → Bool
  is_missing_ui seen none = false
  is_missing_ui seen (some entrypoint) = not (includes seen entrypoint)

  unfoldable pub check_files : PluginManifest → List Text → Valid
  check_files manifest seen = do
    raise_if (is_legacy manifest && not (includes seen (codes "requirements.lock")))
        "Plugin API v1 package is missing requirements.lock"
    raise_if (is_missing seen manifest.python_dependencies)
        "Plugin Python dependency file is missing"
    raise_if (is_missing_ui seen manifest.ui) "Plugin UI entrypoint is missing"
    raise_if (any is_script seen) "Custom plugin installation scripts are not supported"

  abbrev joined : Text → Text → Text
  joined [] t = t
  joined (c ∷ s) t = c ∷ joined s t

  -- The path of the entrypoint below `src/`, with what follows it.
  abbrev source_path : Text → String → Text
  source_path entrypoint suffix =
      joined (codes "src/") (joined (replace_char 46 47 entrypoint) (codes suffix))

  unfoldable pub check_entrypoint : PluginManifest → List Text → Valid
  check_entrypoint manifest seen =
      let found : String → Bool =
        λ suffix. includes seen (source_path manifest.entrypoint suffix) in
      raise_if (not (found ".py") && not (found "/__init__.py") && not (found "/__main__.py"))
        "Plugin entrypoint is missing"
