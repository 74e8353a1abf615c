-- ===== src/Http/Paths.antt =====
-- What src/http/Http.cpp uses of std::filesystem::path, on POSIX: a path is its text. The standard
-- library's iteration collapses runs of `/`; here each gives an empty piece, which no test sees.
pub mod Pieces
pub mod Join
use coro_iomultiplex.Prelude.{
  ℕ, zero, suc, Text, codes, Bool, true, false, ◌==◌, ◌||◌, text_eq, drop, List, [], ◌∷◌, ◌++◌,
  Option, none, some, if◌then◌else◌,
}

-- The text up to the first `/`, and the pieces behind it.
unfoldable pub first_piece : Text → Text
first_piece [] = []
first_piece (c ∷ s) = if c == 47 then [] else c ∷ first_piece s

unfoldable pub later_pieces : Text → List Text
later_pieces [] = []
later_pieces (c ∷ s) = let rest = later_pieces s in if c == 47 then first_piece s ∷ rest else rest

abbrev pub pieces : Text → List Text
pieces s = first_piece s ∷ later_pieces s

abbrev pub last_or {ℓ} : {A : Type ℓ} → A → List A → A
last_or d [] = d
last_or d (x ∷ xs) = last_or x xs

-- p.filename().
abbrev pub filename : Text → Text
filename s = last_or (first_piece s) (later_pieces s)

abbrev pub is_empty : Text → Bool
is_empty [] = true
is_empty (c ∷ s) = false

-- Where a byte stands last.
unfoldable pub find_last : ℕ → Text → Option ℕ
find_last c [] = none
find_last c (a ∷ s) = elim (find_last c s) [
  | some n ↦ some (suc n)
  | none ↦ if a == c then some 0 else none
]

abbrev pub dot_dot : Text
dot_dot = codes ".."

-- The extension of a file name: from its last dot on. `..` has none, and neither has a name whose
-- only dot is its first byte.
unfoldable pub name_extension : Text → Text
name_extension name = elim (find_last 46 name) [
  | none ↦ []
  | some zero ↦ []
  | some (suc n) ↦ if text_eq name dot_dot then [] else drop (suc n) name
]

-- p.extension(); p.has_extension() says that it is not empty.
abbrev pub extension : Text → Text
extension path = name_extension (filename path)

-- p.relative_path().
unfoldable pub relative_path : Text → Text
relative_path [] = []
relative_path (c ∷ s) = if c == 47 then relative_path s else c ∷ s

abbrev pub is_absolute : Text → Bool
is_absolute [] = false
is_absolute (c ∷ s) = c == 47

-- p / q.
unfoldable pub join : Text → Text → Text
join p q = if is_absolute q then q else (if is_empty (filename p) then p ++ q else p ++ (47 ∷ q))

-- The loop of the httpResponse constructor: some piece is `..`.
unfoldable pub has_dot_dot : List Text → Bool
has_dot_dot [] = false
has_dot_dot (x ∷ xs) = text_eq x dot_dot || has_dot_dot xs
