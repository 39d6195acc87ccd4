-- ===== src/Cli/Passes.antt =====
-- When `may validate` passes: may_cli/src/main.rs.

use maysemantic.Models.State.Loading.{is_ok-load_from_yaml}
use maysemantic.Cli.{
  is_failure, validate_command, collect_yaml_files, Entry, Line, report, check_entry, load_content,
  check_entries, Place,
}
use maysemantic.Models.Core.{SemanticModel}
use mathlib.Core.Path.{ap₂}
use maysemantic.Models.State.{load_from_yaml, SemanticState, read_model, StateError}
use maysemantic.Cli.{missing, a_file, a_directory}
use maysemantic.Prelude.{
  length, ltb, arith, not, filter, is_ok-map_err, ◌∙◌, ℕ, ◌≡◌, is_ok, List, Result, Option, Text,
  refl, ok, err, [], ◌∷◌, all, ◌&&◌, Bool,
}

-- the file was read, and its text is a model that validates
abbrev pub is_valid_content : (Text → Option SemanticModel) → Result Text Text → Bool
is_valid_content parse (err e) = Bool.false
is_valid_content parse (ok c) = is_ok (read_model parse c)

failures-all :
    (lines : List Line)
    → ltb 0 (length (filter is_failure lines)) ≡ not (all (λ (l : Line). is_ok l.outcome) lines)
unfolding filter is_failure all
failures-all [] = refl
failures-all (l ∷ lines) = ground (arith, failures-all lines)

is_ok-report :
    (lines : List Line) → is_ok (report lines) ≡ all (λ (l : Line). is_ok l.outcome) lines
unfolding report
is_ok-report lines = ground (arith, failures-all lines)

module _ {G : Type 0} (parse : Text → Option SemanticModel) (show_error : StateError → Text) where
  is_ok-load_content :
      (content : Result Text Text) (s : SemanticState G)
      → is_ok (load_content parse show_error content s).0 ≡ is_valid_content parse content
  unfolding load_content
  is_ok-load_content (err e) s = refl
  is_ok-load_content (ok c) s =
      is_ok-map_err show_error (load_from_yaml parse c s).0 ∙ is_ok-load_from_yaml parse c s

  all-check_entries :
      (entries : List Entry) (s : SemanticState G)
      → all (λ (l : Line). is_ok l.outcome) (check_entries parse show_error entries s).0
        ≡ all (λ (e : Entry). is_valid_content parse e.content) entries
  unfolding check_entries check_entry all
  all-check_entries [] s = refl
  all-check_entries (entry ∷ entries) s =
      ap₂ ◌&&◌ (is_ok-load_content entry.content s)
        (all-check_entries entries (load_content parse show_error entry.content s).1)

  -- `may validate` passes exactly when every YAML file of the place can be read and holds a model that
  -- parses and validates: whatever was loaded before, and so whatever the order of the files.
  pub validate_command-passes :
      (place : Place) (entries : List Entry) (s : SemanticState G)
      → collect_yaml_files place ≡ ok entries
      → (lines : List Line) × (outcome : Result ℕ ℕ) × (validate_command parse show_error place s
          ≡ ok (lines, outcome))
        × (is_ok outcome ≡ all (λ (e : Entry). is_valid_content parse e.content) entries)
  unfolding validate_command
  validate_command-passes missing entries s h = unfold collect_yaml_files in cc
  validate_command-passes (a_file f) entries s h =
      let lines = (check_entries parse show_error entries s).0 in
      (lines, report lines, rw h refl, is_ok-report lines ∙ all-check_entries entries s)
  validate_command-passes (a_directory d) entries s h =
      let lines = (check_entries parse show_error entries s).0 in
      (lines, report lines, rw h refl, is_ok-report lines ∙ all-check_entries entries s)
