-- ===== src/Logger/Folder.antt =====
-- `getLogDir` of pkg/logger/logger.go: the folder that is made for a log file.
use Prim.Native.Char.{code}
use mbsscaner.Prelude.{
  ap, ◌∙◌, ◌≡◌, ◌≢◌, refl, String, none, some, ◌==◌, ==_iff, Bool-cases, inl, inr,
}
use mbsscaner.Config.Text.{char_of}
use mbsscaner.Logger.{with_char, or_here, before_last_slash, get_log_dir}

-- `dir`, a slash, and `name`.
abbrev pub under : String → String → String
under String.[] name = String.◌∷◌ (char_of b'/') name
under (String.◌∷◌ c dir) name = String.◌∷◌ c (under dir name)

abbrev pub NoSlash : String → Type 0
NoSlash String.[] = Unit
NoSlash (String.◌∷◌ c s) = (code c ≢ b'/') × NoSlash s

before_last_slash-none : (name : String) → NoSlash name → before_last_slash name ≡ none
unfolding before_last_slash
before_last_slash-none String.[] h = refl
before_last_slash-none (String.◌∷◌ c name) h = elim (Bool-cases (code c == b'/')) [
  | inl same ↦ absurd (h.0 ((==_iff (code c) b'/').0 same))
  | inr other ↦ ap (with_char c) (before_last_slash-none name h.1) ∙ rw other refl
]

before_last_slash-under :
    (dir name : String) → NoSlash name → before_last_slash (under dir name) ≡ some dir
unfolding before_last_slash
before_last_slash-under String.[] name h =
    ap (with_char (char_of b'/')) (before_last_slash-none name h)
before_last_slash-under (String.◌∷◌ c dir) name h =
    ap (with_char c) (before_last_slash-under dir name h)

-- The folder of `dir/name` is `dir`, also where `dir` is empty or holds slashes itself, and the
-- folder of a name without a slash is the working folder.
pub get_log_dir-under :
    (dir name : String)
    → NoSlash name
    → (get_log_dir (under dir name) ≡ dir) × (get_log_dir name ≡ ".")
unfolding get_log_dir
get_log_dir-under dir name h =
    (ap or_here (before_last_slash-under dir name h), ap or_here (before_last_slash-none name h))
