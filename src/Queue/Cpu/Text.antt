-- ===== src/Queue/Cpu/Text.antt =====
-- queue/cpu_linux.go: `readText`, `readLines` and what package strings does for them, on ASCII text. A
-- reading of the file system gives each path its content, or `none` where the file cannot be read.
use Prim.Native.Char.{code}
use Prim.Native.String.{String}
use load_shedding.Prelude.{
  ℕ, Bool, true, false, Option, none, some, List, [], ◌∷◌, leb, if◌then◌else◌, ◌==◌, ◌&&◌, ◌||◌,
}
use load_shedding.Queue.Cpu.{split}

abbrev pub Text : Type 0
Text = List ℕ

abbrev pub Files : Type 0
Files = Text → Option Text

-- The codes of a literal.
abbrev pub codes : String → Text
codes String.[] = []
codes (String.◌∷◌ c s) = code c ∷ codes s

abbrev pub equal : Text → Text → Bool
equal [] [] = true
equal (a ∷ xs) (b ∷ ys) = a == b && equal xs ys
equal _ _ = false

abbrev pub is_space : ℕ → Bool
is_space c = c == 32 || (leb 9 c && leb c 13)

abbrev pub is_empty : Text → Bool
is_empty [] = true
is_empty (_ ∷ _) = false

unfoldable pub trim_left : Text → Text
trim_left [] = []
trim_left (c ∷ rest) = let later = trim_left rest in if is_space c then later else c ∷ rest

-- A text without its spaces at the end.
unfoldable pub trim_right : Text → Text
trim_right [] = []
trim_right (c ∷ rest) =
    let later = trim_right rest in if is_space c && is_empty later then [] else c ∷ later

-- `strings.TrimSpace`.
unfoldable pub trim_space : Text → Text
unfolding trim_left trim_right
trim_space s = trim_left (trim_right s)

unfoldable pub has_prefix : Text → Text → Bool
has_prefix [] s = true
has_prefix (_ ∷ _) [] = false
has_prefix (a ∷ xs) (b ∷ ys) = a == b && has_prefix xs ys

-- A word that has begun is finished, or there is none.
end_word : Text → List Text → List Text
end_word [] words = words
end_word (c ∷ word) words = (c ∷ word) ∷ words

fields_from : Text → Text × List Text
fields_from [] = ([], [])
fields_from (c ∷ rest) =
    let (word, words) = fields_from rest in
    if is_space c then ([], end_word word words) else (c ∷ word, words)

-- `strings.Fields`.
unfoldable pub fields : Text → List Text
unfolding fields_from end_word
fields s = let (word, words) = fields_from s in end_word word words

keep_lines : List Text → List Text
keep_lines [] = []
keep_lines (line ∷ rest) =
    let line' = trim_space line in
    let later = keep_lines rest in if is_empty line' then later else line' ∷ later

module _ (files : Files) where
  read_content : Option Text → Option Text
  unfolding trim_space
  read_content none = none
  read_content (some s) = some (trim_space s)

  unfoldable pub read_text : Text → Option Text
  unfolding read_content
  read_text path = read_content (files path)

  lines_of : Option Text → Option (List Text)
  unfolding keep_lines split
  lines_of none = none
  lines_of (some s) = some (keep_lines (split 10 s))

  unfoldable pub read_lines : Text → Option (List Text)
  unfolding lines_of
  read_lines path = lines_of (files path)
