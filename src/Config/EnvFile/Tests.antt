-- ===== src/Config/EnvFile/Tests.antt =====
-- Tests of `load_env_file` of crates/common/src/config.rs.
use kokkeak_api.Dict.{lookup, insert}
use kokkeak_api.Prelude.{String, refl, none, some, if◌then◌else◌, List, Option, str_eq, ◌≡◌}
use kokkeak_api.Text.Lines.{lines, split_once, trim_matches, contains_code}
use kokkeak_api.Config.EnvFile.{
  load_env_file, load_line, assignment, assign, load_first, load_lines, Environment, env_var,
}
use kokkeak_api.Text.{trim}
use kokkeak_api.Config.EnvFile.Laws.{chosen}

abbrev file : String → Option String
file path = if str_eq path ".env.dev" then some "# kept\nA=1\r\n B = \"two\" \nA=3\n\nC" else none

abbrev env : Environment
env = List.◌∷◌ ("B", some "old") List.[]

read_lines :
    lines (chosen file)
    ≡ List.◌∷◌ "# kept" (
        List.◌∷◌ "A=1"
          (List.◌∷◌ " B = \"two\" " (List.◌∷◌ "A=3" (List.◌∷◌ "" (List.◌∷◌ "C" List.[])))))
unfolding lines chosen
read_lines = refl

parsed : assignment " B = \"two\" " ≡ some ("B", "two")
unfolding assignment trim split_once trim_matches
parsed = refl

loaded :
    load_env_file file env ≡ some (List.◌∷◌ ("B", some "old") (List.◌∷◌ ("A", some "1") List.[]))
unfolding load_env_file load_first load_lines load_line assign assignment env_var lookup insert
    lines trim split_once trim_matches contains_code
loaded = refl

-- A line that starts with `=` ends the program: no variable has an empty name.
no_name : load_line "=x" List.[] ≡ none
unfolding load_line assign assignment env_var trim lookup split_once trim_matches contains_code
no_name = refl

-- A value that is not Unicode counts as none, and is overwritten.
not_unicode :
    load_line "A=1" (List.◌∷◌ ("A", none) List.[]) ≡ some (List.◌∷◌ ("A", some "1") List.[])
unfolding load_line assign assignment env_var trim lookup insert split_once trim_matches
    contains_code
not_unicode = refl
