-- ===== src/Packages/Tests.antt =====
-- Runs of the package checks.
use maintune.Base.{◌≡◌, ◌≤◌, refl, any, length, List, [], ◌∷◌, nat_eq, true}
use maintune.Base.Int.{pos}
use maintune.Base.Result.{ok, err}
use maintune.Base.Text.{Text, codes, join}
use maintune.Base.Unicode.{ascii}
use maintune.Packages.{ZipInfo, safe_member}
use maintune.Packages.Archive.{includes, is_source_file, check_members, check_listing}
use maintune.Packages.Archive.Safe.{
  AreSafe, AreDistinct, names_of, total_size, check_listing-IsSafe,
}
use maintune.Packages.Yaml.Terminates.{Ends, Raised, IsMapping, parse_manifest_yaml_terminates}
use maintune.Packages.Yaml.{
  decode_error, text, int, list, mapping, nil, cons, end, entry, parse_manifest_yaml, scalar,
}

abbrev source : Text
source = join 10 (
    codes "id: my.plugin"
    ∷ codes "plugin_api: 2"
    ∷ codes "runtime:"
    ∷ codes "  supported:"
    ∷ codes "    - isolated"
    ∷ codes "  default: isolated"
    ∷ codes "# end"
    ∷ [])

parsed :
    parse_manifest_yaml ascii (λ t. err decode_error) source
    ≡ ok (
        mapping (
          entry (codes "id") (text (codes "my.plugin")) (
            entry (codes "plugin_api") (int (pos 2)) (
              entry
                (codes "runtime")
                (mapping (
                  entry
                    (codes "supported")
                    (list (cons (text (codes "isolated")) nil))
                    (entry (codes "default") (text (codes "isolated")) end)))
                end))))
unfolding parse_manifest_yaml scalar nat_eq
parsed = refl

parse_manifest_yaml_terminates_example :
    Ends
      (Raised (λ t. err decode_error))
      IsMapping
      (parse_manifest_yaml ascii (λ t. err decode_error) source)
parse_manifest_yaml_terminates_example =
    parse_manifest_yaml_terminates ascii (λ t. err decode_error) source

abbrev archive : List ZipInfo
archive =
    record { filename = codes "manifest.yaml"; external_attr = 0; file_size = 200 }
    ∷ record { filename = codes "src/./my_plugin.py"; external_attr = 0; file_size = 4000 }
    ∷ []

abbrev names : List Text
names = codes "src/my_plugin.py" ∷ codes "manifest.yaml" ∷ []

is_accepted : check_listing ascii archive ≡ ok names
unfolding check_listing check_members safe_member nat_eq
is_accepted = refl

check_listing-IsSafe_example :
    AreSafe ascii archive
    × (names ≡ names_of ascii [] archive)
    × AreDistinct ascii names
    × (total_size ascii archive ≤ 52428800)
    × (length archive ≤ 512)
    × (includes names (codes "manifest.yaml") ≡ true)
    × (any is_source_file names ≡ true)
check_listing-IsSafe_example = check_listing-IsSafe ascii archive names is_accepted
