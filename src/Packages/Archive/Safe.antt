-- ===== src/Packages/Archive/Safe.antt =====
-- Where the members of an accepted archive unpack to, under which names and how large they are.
use mathlib.Core.Path.{subst}
use maintune.Base.{
  ℕ, ◌+◌, ◌*◌, ◌≤◌, ◌≡◌, refl, sym, ap, ◌∙◌, String, Bool, true, false, not, ◌||◌, List, [], ◌∷◌,
  arith, any, map, ltb, length, All,
}
use maintune.Base.Result.{ok, raise_if, >>=-eq-ok, >>-eq-ok, ok-injective}
use maintune.Base.Text.{Text, codes, join, split}
use maintune.Base.Unicode.{Unicode, casefold}
use maintune.Packages.{
  eq_text, is_empty, parts_of, path_parts, is_absolute, has_parent, has_char, is_link, bad_part,
  ZipInfo, safe_member,
}
use maintune.Packages.Archive.{includes, is_source_file, check_members, check_listing}

-- Where a path leads, as the operating system reads it: the directories from the innermost out.
abbrev pub walk : List Text → List Text → List Text
walk dir [] = dir
walk dir (p ∷ ps) = elim (is_empty p || eq_text p (codes ".")) [
  | true ↦ walk dir ps
  | false ↦ elim (eq_text p (codes "..")) [
    | true ↦ walk (elim dir [ [] ↦ [] | d ∷ ds ↦ ds ]) ps
    | false ↦ walk (p ∷ dir) ps
  ]
]

-- The directory that is reached by going down.
abbrev pub below : List Text → List Text → List Text
below dir [] = dir
below dir (p ∷ ps) = below (p ∷ dir) ps

walk_down :
    (dir ps : List Text) → has_parent (parts_of ps) ≡ false → walk dir ps ≡ below dir (parts_of ps)
walk_down dir [] h = refl
walk_down dir (p ∷ ps) h = ground (arith, walk_down dir ps, walk_down (p ∷ dir) ps)

not_raised : (b : Bool) (e : String) → raise_if b e ≡ ok tt → b ≡ false
not_raised true e h = cc
not_raised false e h = refl

not-false : (b : Bool) → not b ≡ false → b ≡ true
not-false true h = refl
not-false false h = cc

not_or : (a b : Bool) → (a || b) ≡ false → (a ≡ false) × (b ≡ false)
not_or false b h = (refl, h)
not_or true b h = cc

module _ (u : Unicode) where
  pub record IsSafeMember (info : ZipInfo) (parts : List Text) : Type 0 where
    pub relative : is_absolute info.filename ≡ false
    pub stays : (dir : List Text) → walk dir (split 47 info.filename) ≡ below dir parts
    pub no_link : is_link info.external_attr ≡ false

  safe_member-IsSafeMember :
      (info : ZipInfo) (parts : List Text)
      → safe_member u info ≡ ok parts
      → IsSafeMember info parts × (path_parts info.filename ≡ parts)
  unfolding safe_member
  safe_member-IsSafeMember info parts h =
      let name = info.filename in
      let clean = >>-eq-ok (raise_if (has_char 92 name || has_char 0 name) _) _ h in
      let inside =
        >>-eq-ok
          (raise_if
            (is_absolute name
              || (elim (path_parts name) as (λ x. Bool) [ [] ↦ true | p ∷ ps ↦ false ])
              || has_parent (path_parts name))
            _)
          _ clean.1 in
      let plain = >>-eq-ok (raise_if (any (bad_part u) (path_parts name)) _) _ inside.1 in
      let no_link = >>-eq-ok (raise_if (is_link info.external_attr) _) _ plain.1 in
      let same = ok-injective (path_parts name) parts no_link.1 in
      let relative = not_raised _ _ inside.0 in
      (
        record {
          relative = (not_or _ _ (not_or _ _ relative).0).0;
          stays =
              λ dir. walk_down dir (split 47 name) (not_or _ _ relative).1 ∙ ap (below dir) same;
          no_link = not_raised _ _ no_link.0;
        },
        same,
      )

  abbrev pub total_size : List ZipInfo → ℕ
  total_size [] = 0
  total_size (info ∷ infos) = info.file_size + total_size infos

  -- No two names are the same once case is folded.
  abbrev pub AreDistinct : List Text → Type 0
  AreDistinct [] = Unit {0}
  AreDistinct (n ∷ ns) = (includes (map (casefold u) ns) (casefold u n) ≡ false) × AreDistinct ns

  abbrev pub AreSafe : List ZipInfo → Type 0
  AreSafe infos = All (λ info. IsSafeMember info (path_parts info.filename)) infos

  -- The normalized names of the members, each put in front of those before it.
  abbrev pub names_of : List Text → List ZipInfo → List Text
  names_of names [] = names
  names_of names (info ∷ infos) = names_of (join 47 (path_parts info.filename) ∷ names) infos

  check_members-ok :
      (seen : List Text) (total : ℕ) (infos : List ZipInfo) (names : List Text)
      → check_members u seen (map (casefold u) seen) total infos ≡ ok names
      → AreDistinct seen
      → total ≤ 52428800
      → AreSafe infos
        × (names ≡ names_of seen infos)
        × AreDistinct names
        × (total + total_size infos ≤ 52428800)
  unfolding check_members
  check_members-ok seen total [] names h distinct small = (
    tt,
    sym (ok-injective seen names h),
    subst AreDistinct (ok-injective seen names h) distinct,
    omega arith,
  )
  check_members-ok seen total (info ∷ infos) names h distinct small =
      let member = >>=-eq-ok (safe_member u info) _ h in
      let name = join 47 member.0 in
      let fresh =
        >>-eq-ok
          (raise_if (includes seen name || includes (map (casefold u) seen) (casefold u name))
            "Plugin package contains duplicate paths")
          _ member.2 in
      let sized =
        >>-eq-ok
          (raise_if (ltb (50 * 1024 * 1024) (total + info.file_size))
            "Plugin package expands beyond the size limit")
          _ fresh.1 in
      let within = not_raised _ _ sized.0 in
      let new_folded : includes (map (casefold u) seen) (casefold u name) ≡ false =
        (not_or (includes seen name) _
          (not_raised _ "Plugin package contains duplicate paths" fresh.0)).1 in
      let safe = safe_member-IsSafeMember info member.0 member.1 in
      let rest : AreSafe infos
          × (names ≡ names_of (name ∷ seen) infos)
          × AreDistinct names
          × (total + info.file_size + total_size infos ≤ 52428800) =
        check_members-ok (name ∷ seen) (total + info.file_size) infos names sized.1
          (new_folded, distinct) (ground arith) in
      (
        (subst (IsSafeMember info) (sym safe.1) safe.0, rest.0),
        subst (λ parts. names ≡ names_of (join 47 parts ∷ seen) infos) (sym safe.1) rest.1,
        rest.2,
        omega (arith, rest.3),
      )

  -- In an archive whose listing is accepted, every member stays inside the directory that it is unpacked to and
  -- is no link, the names that are returned are the normalized names of all members, no two of them are equal once
  -- case is folded, the members are at most 512 and unpack to at most 50 MiB, and there is a manifest and a source file.
  pub check_listing-IsSafe :
      (infos : List ZipInfo) (names : List Text)
      → check_listing u infos ≡ ok names
      → AreSafe infos
        × (names ≡ names_of [] infos)
        × AreDistinct names
        × (total_size infos ≤ 52428800)
        × (length infos ≤ 512)
        × (includes names (codes "manifest.yaml") ≡ true)
        × (any is_source_file names ≡ true)
  unfolding check_listing
  check_listing-IsSafe infos names h =
      let few = >>-eq-ok (raise_if (ltb 512 (length infos)) _) _ h in
      let seen = >>=-eq-ok (check_members u [] [] 0 infos) _ few.1 in
      let manifest =
        >>-eq-ok (raise_if (not (includes seen.0 (codes "manifest.yaml"))) _) _ seen.2 in
      let source = >>-eq-ok (raise_if (not (any is_source_file seen.0)) _) _ manifest.1 in
      let same = ok-injective seen.0 names source.1 in
      let members = check_members-ok [] 0 infos seen.0 seen.1 tt (omega arith) in
      (
        members.0,
        sym same ∙ members.1,
        subst AreDistinct same members.2,
        omega (arith, members.3),
        (let below = not_raised _ _ few.0 in ground arith),
        subst (λ ns. includes ns (codes "manifest.yaml") ≡ true) same
            (not-false _ (not_raised _ _ manifest.0)),
        subst (λ ns. any is_source_file ns ≡ true) same (not-false _ (not_raised _ _ source.0)),
      )
