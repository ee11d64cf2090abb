-- ===== src/Rules/Glob.antt =====
-- backend/app/rules.py: the translation of a glob (`_compile_glob`) and the match of the resulting
-- regex. A glob becomes a list of atoms, one for each piece that the source appends to its regex.
use perchtail.Prelude.{
  ℕ, Bool, true, false, ◌&&◌, ◌||◌, not, List, [], ◌∷◌, ◌==◌, nat_eq, if◌then◌else◌,
}
use perchtail.Model.{Text}

abbrev pub slash : ℕ
slash = b'/'

abbrev pub star : ℕ
star = b'*'

abbrev pub newline : ℕ
newline = 10

-- `(?:.*/)?`, `.*`, `[^/]*`, `[^/]`, and an escaped character
pub data Atom : Type 0 where
  dir_star any_star seg_star seg_char : Atom
  lit : ℕ → Atom

-- the branches for one character
unfoldable pub single : ℕ → Atom
single c = if c == star then seg_star else if c == b'?' then seg_char else lit c

-- The loop of `_compile_glob`: the longest of `**/`, `**` and one character is taken.
unfoldable pub compile_glob : Text → List Atom
unfolding single
compile_glob [] = []
compile_glob (a ∷ []) = single a ∷ []
compile_glob (a ∷ b ∷ []) =
    let one = compile_glob (b ∷ []) in
    if a == star && b == star then any_star ∷ [] else single a ∷ one
compile_glob (a ∷ b ∷ c ∷ s) =
    let three = compile_glob s in
    let two = compile_glob (c ∷ s) in
    let one = compile_glob (b ∷ c ∷ s) in
    if a == star && b == star && c == slash
    then dir_star ∷ three
    else if a == star && b == star
    then any_star ∷ two
    else single a ∷ one

-- `$` holds at the end, and before a newline that ends the text.
unfoldable pub at_end : Text → Bool
at_end [] = true
at_end (c ∷ []) = c == newline
at_end (c ∷ d ∷ s) = false

-- `k` is the rest of the regex. `.` is any character but a newline.
unfoldable pub any_run : (Text → Bool) → Text → Bool
any_run k [] = k []
any_run k (c ∷ s) = k (c ∷ s) || (not (c == newline) && any_run k s)

unfoldable pub seg_run : (Text → Bool) → Text → Bool
seg_run k [] = k []
seg_run k (c ∷ s) = k (c ∷ s) || (not (c == slash) && seg_run k s)

-- `.*/`
unfoldable pub dir_run : (Text → Bool) → Text → Bool
dir_run k [] = false
dir_run k (c ∷ s) = (c == slash && k s) || (not (c == newline) && dir_run k s)

-- `fold` sends a character to the representative of those that `re.IGNORECASE` identifies with it.
module _ (fold : ℕ → ℕ) (ignore_case : Bool) where
  unfoldable pub char_matches : ℕ → ℕ → Bool
  char_matches p c = if ignore_case then fold p == fold c else p == c

  unfoldable pub atom_run : Atom → (Text → Bool) → Text → Bool
  unfolding any_run seg_run dir_run char_matches
  atom_run dir_star k s = k s || dir_run k s
  atom_run any_star k s = any_run k s
  atom_run seg_star k s = seg_run k s
  atom_run seg_char k [] = false
  atom_run seg_char k (c ∷ s) = not (c == slash) && k s
  atom_run (lit p) k [] = false
  atom_run (lit p) k (c ∷ s) = char_matches p c && k s

  -- `re.match` with `^…$`: some way to spend the text on the atoms ends at `$`.
  unfoldable pub atoms_match : List Atom → (Text → Bool) → Text → Bool
  atoms_match [] k s = k s
  atoms_match (a ∷ p) k s = atom_run a (atoms_match p k) s

  -- `_compile_glob(pattern, ignore_case).match(path) is not None`
  unfoldable pub glob_match : Text → Text → Bool
  unfolding compile_glob atoms_match atom_run at_end
  glob_match pattern path = atoms_match (compile_glob pattern) at_end path
