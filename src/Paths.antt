-- ===== src/Paths.antt =====
-- backend/app/rules.py: which client-supplied paths are accepted. A path is the list of its code points.
pub mod Canonical
mod Tests
use perchtail.Prelude.{
  ℕ, Bool, true, false, ◌&&◌, ◌||◌, not, List, [], ◌∷◌, ◌++◌, ◌==◌, nat_eq, list_eq, all, any, ltb,
  if◌then◌else◌,
}
use perchtail.Model.{Text}
use perchtail.Rules.Glob.{slash}
use perchtail.Rules.Segments.{split}

-- `"/".join(parts)`
abbrev pub join : List Text → Text
join [] = []
join (p ∷ []) = p
join (p ∷ q ∷ ps) = p ++ slash ∷ join (q ∷ ps)

abbrev pub dot : ℕ
dot = 46

abbrev pub colon : ℕ
colon = 58

abbrev pub backslash : ℕ
backslash = 92

abbrev pub contains : ℕ → Text → Bool
contains c path = any (λ x. x == c) path

abbrev pub is_control : ℕ → Bool
is_control c = ltb c 32 || c == 127

-- "", "." and ".."
abbrev pub is_special : Text → Bool
is_special segment = segment == [] || (segment == dot ∷ [] || segment == dot ∷ dot ∷ [])

unfoldable pub is_safe_relative_path : Text → Bool
is_safe_relative_path path =
    if path == []
    then true
    else if contains backslash path || contains colon path
    then false
    else if any is_control path
    then false
    else all (λ segment. not (is_special segment)) (split path)

-- `segment.endswith((".", " "))`
abbrev pub ends_in_dot_or_space : Text → Bool
ends_in_dot_or_space [] = false
ends_in_dot_or_space (c ∷ []) = c == dot || c == 32
ends_in_dot_or_space (c ∷ d ∷ cs) = ends_in_dot_or_space (d ∷ cs)

-- `short_name_alias` is the match of the 8.3 pattern by the `re` module.
pub is_safe_windows_relative_path : (Text → Bool) → Text → Bool
is_safe_windows_relative_path short_name_alias path =
    if path == []
    then true
    else all (λ segment. not (ends_in_dot_or_space segment || short_name_alias segment))
        (split path)
