-- ===== src/Cli.antt =====
-- The commands of may_cli/src/main.rs. Reading a directory and a file is a parameter: an entry is a file
-- name with the content that it gives, or why it gives none. `validate` loads its files in parallel; a load is a
-- step of the state, and they are taken in the order of the entries. `run` only prints its argument.

pub mod Passes
use maysemantic.Models.State.{
  get_stats, load_dir, load_from_yaml, StateStats, SemanticState, StateError,
}
use maysemantic.Models.Core.{SemanticModel}
use maysemantic.Prelude.{
  map_err, ltb, if◌then◌else◌, ◌++◌, ℕ, is_ok, ◌||◌, Result, Option, Text, str, ok, err, some, none,
  [], ◌∷◌, ◌>>=◌, Bool, List, ◌==◌, filter, not, length,
}

-- a line of the report: the name, and the error if there is one
pub record Line : Type 0 where
  pub file_name : Text
  pub outcome : Result Text (Unit {0})

-- an entry with its path's extension
pub record Entry : Type 0 where
  pub file_name : Text
  pub extension : Option Text
  pub content : Result Text Text

pub data Place : Type 0 where
  missing : Place
  a_file : Entry → Place
  a_directory : Result Text (List Entry) → Place

is_yaml_extension : Option Text → Bool
is_yaml_extension none = Bool.false
is_yaml_extension (some ext) = ext == str "yml" || ext == str "yaml"

-- `collect_yaml_files`
unfoldable pub collect_yaml_files : Place → Result Text (List Entry)
unfolding is_yaml_extension str
collect_yaml_files missing = err (str "No such file or directory")
collect_yaml_files (a_file entry) = ok (entry ∷ [])
collect_yaml_files (a_directory entries) = do
  es ← entries
  ok (filter (λ (e : Entry). is_yaml_extension e.extension) es)

is_failure : Line → Bool
is_failure line = not (is_ok line.outcome)

-- `errors` and the exit of the command
report : List Line → Result ℕ ℕ
report lines =
    let errors = length (filter is_failure lines) in
    if ltb 0 errors then err errors else ok (length lines)

module _ {G : Type 0} (parse : Text → Option SemanticModel) (show_error : StateError → Text) where
  load_content : Result Text Text → SemanticState G → Result Text (Unit {0}) × SemanticState G
  load_content (err e) s = (err (str "Failed to read file: " ++ e), s)
  load_content (ok c) s = let (r, s') = load_from_yaml parse c s in (map_err show_error r, s')

  -- the task of one entry
  check_entry : Entry → SemanticState G → Line × SemanticState G
  unfolding load_content str
  check_entry entry s =
      let (r, s') = load_content entry.content s in
      (record { file_name = entry.file_name; outcome = r }, s')

  unfoldable pub check_entries : List Entry → SemanticState G → List Line × SemanticState G
  unfolding check_entry
  check_entries [] s = ([], s)
  check_entries (entry ∷ entries) s =
      let (line, s₁) = check_entry entry s in
      let (lines, s₂) = check_entries entries s₁ in (line ∷ lines, s₂)

  -- `Commands::Validate`: the lines, and the files processed or the number of errors
  unfoldable pub validate_command : Place → SemanticState G → Result Text (List Line × Result ℕ ℕ)
  unfolding report is_failure str
  validate_command missing s = err (str "Path does not exist")
  validate_command place s = do
    entries ← collect_yaml_files place
    let lines = (check_entries entries s).0
    ok (lines, report lines)

  -- `Commands::Compile`
  unfoldable pub compile_command :
      List (Option Text) → SemanticState G → Result StateError StateStats
  compile_command files s = let (r, s') = load_dir parse files s in r >>= λ _. ok (get_stats s')
