-- ===== src/Rules/Segments.antt =====
-- backend/app/rules.py: the walks that decide from a glob what may stand below a directory.
use perchtail.Prelude.{
  ℕ, suc, Bool, true, false, ◌&&◌, ◌||◌, not, List, [], ◌∷◌, ◌==◌, list_eq, nat_eq, if◌then◌else◌,
  any, take, length,
}
use perchtail.Model.{Text}
use perchtail.Rules.Glob.{slash, star, glob_match}

abbrev pub cons_head : ℕ → List Text → List Text
cons_head c [] = (c ∷ []) ∷ []
cons_head c (s ∷ r) = (c ∷ s) ∷ r

-- `text.split("/")`
unfoldable pub split : Text → List Text
split [] = [] ∷ []
split (c ∷ s) = let rest = split s in if c == slash then [] ∷ rest else cons_head c rest

-- the part `**`
abbrev pub double_star : Text
double_star = star ∷ star ∷ []

-- `"**" in p`
unfoldable pub has_double_star : Text → Bool
has_double_star [] = false
has_double_star (a ∷ []) = false
has_double_star (a ∷ b ∷ s) = (a == star && b == star) || has_double_star (b ∷ s)

-- `any("**" in p and p != "**" for p in parts)`
unfoldable pub is_mixed : List Text → Bool
unfolding has_double_star
is_mixed parts = any (λ p. has_double_star p && not (p == double_star)) parts

-- `parts[:-1]` and `parts[-1]` of a list that is not empty
unfoldable pub but_last : List Text → List Text
but_last [] = []
but_last (p ∷ []) = []
but_last (p ∷ q ∷ ps) = p ∷ but_last (q ∷ ps)

unfoldable pub last_is_double_star : List Text → Bool
last_is_double_star [] = false
last_is_double_star (p ∷ []) = p == double_star
last_is_double_star (p ∷ q ∷ ps) = last_is_double_star (q ∷ ps)

abbrev pub is_cons : List Text → Bool
is_cons [] = false
is_cons (p ∷ ps) = true

module _ (fold : ℕ → ℕ) (ignore_case : Bool) where
  -- `_segment_matches`
  unfoldable pub segment_matches : Text → Text → Bool
  unfolding glob_match
  segment_matches pattern_segment name = glob_match fold ignore_case pattern_segment name

  -- `walk` of `_glob_could_match_below`: what is left of the parts and of the segments.
  unfoldable pub could_walk : List Text → List Text → Bool
  unfolding segment_matches
  could_walk parts [] = is_cons parts
  could_walk [] (s ∷ ss) = false
  could_walk (p ∷ ps) (s ∷ ss) =
      let skip = could_walk ps (s ∷ ss) in
      let take = could_walk (p ∷ ps) ss in
      let step = could_walk ps ss in
      if p == double_star then skip || take else segment_matches p s && step

  -- `_glob_could_match_below`
  unfoldable pub could_match_below : Text → List Text → Bool
  unfolding split is_mixed could_walk
  could_match_below pattern dir_segments =
      let parts = split pattern in if is_mixed parts then true else could_walk parts dir_segments

  -- `_glob_matches_exactly`
  unfoldable pub matches_exactly : List Text → List Text → Bool
  unfolding segment_matches
  matches_exactly [] [] = true
  matches_exactly [] (s ∷ ss) = false
  matches_exactly (p ∷ ps) [] = let skip = matches_exactly ps [] in p == double_star && skip
  matches_exactly (p ∷ ps) (s ∷ ss) =
      let skip = matches_exactly ps (s ∷ ss) in
      let take = matches_exactly (p ∷ ps) ss in
      let step = matches_exactly ps ss in
      if p == double_star then skip || take else segment_matches p s && step

  -- `any(… for k in range(n + 1))`, from the last `k` down
  unfoldable pub any_prefix : List Text → List Text → ℕ → Bool
  unfolding matches_exactly
  any_prefix prefix segments ℕ.zero = matches_exactly prefix []
  any_prefix prefix segments (suc k) =
      matches_exactly prefix (take (suc k) segments) || any_prefix prefix segments k

  -- `_glob_covers_everything_below`
  unfoldable pub covers_everything_below : Text → List Text → Bool
  unfolding split is_mixed any_prefix but_last last_is_double_star
  covers_everything_below pattern dir_segments =
      let parts = split pattern in
      if not (last_is_double_star parts) || is_mixed parts
      then false
      else any_prefix (but_last parts) dir_segments (length dir_segments)
