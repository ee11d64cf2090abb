-- ===== src/Paths/Tests.antt =====
-- A path that is accepted.
use perchtail.Prelude.{◌≡◌, refl, true, false, [], ◌∷◌}
use perchtail.Model.{Text}
use perchtail.Rules.Segments.{split}
use perchtail.Paths.{join, backslash, colon, contains, is_safe_relative_path}
use perchtail.Paths.Canonical.{resolve, is_safe_relative_path-resolve}

-- "a/b"
abbrev nested : Text
nested = 97 ∷ 47 ∷ 98 ∷ []

nested-safe : is_safe_relative_path nested ≡ true
unfolding is_safe_relative_path split
nested-safe = refl

-- "a/../b"
climbing-unsafe : is_safe_relative_path (97 ∷ 47 ∷ 46 ∷ 46 ∷ 47 ∷ 98 ∷ []) ≡ false
unfolding is_safe_relative_path split
climbing-unsafe = refl

is_safe_relative_path-resolve_example :
    (join (resolve [] (split nested)) ≡ nested)
    × (contains backslash nested ≡ false)
    × (contains colon nested ≡ false)
is_safe_relative_path-resolve_example = is_safe_relative_path-resolve nested nested-safe
