-- ===== src/Frontend/Program.antt =====
-- src/frontend/include/frontend/source_file.hpp, program.hpp and diagnostic.hpp, and
-- src/frontend/diagnostic.cpp: the files of a program, and the sink of diagnostics. A message is
-- kept as what it is put together from. The map of files is the list of them, in the order in which
-- the map hands them out.
use hasten.Common.{
  String, ℕ, zero, suc, List, [], ◌∷◌, ◌++◌, Bool, true, false, ◌||◌, none, some, ◌==◌,
  if◌then◌else◌,
}
use hasten.Idl.Ast.{PositionTagged, Module}
use hasten.Frontend.{FilePath}

-- The position cache of the parser holds iterators into the text that was parsed: here it is what
-- they find, from the first one on, when they are followed.
pub record SourceFile : Type 0 where
  pub path : FilePath
  pub content : List ℕ
  pub position_cache : List ℕ
  pub syntax : Module

pub record Program : Type 0 where
  pub files : List SourceFile

pub data Severity : Type 0 where
  note warning error : Severity

pub record SourceLocation : Type 0 where
  pub file : FilePath
  pub line : ℕ
  pub column : ℕ

-- Whose field, parameter or enumerator: "enum 'E'", "method 'm'", "method 'm' result".
pub data Owner : Type 0 where
  of_enum of_struct of_interface of_method of_result : String → Owner

-- Where a type stands: "field 'f' of struct 'S'", and behind it what part of the type it is.
pub data Usage : Type 0 where
  field_of parameter_of result_field_of : String → String → Usage
  result_of : String → Usage
  vector_element map_key map_value inner_optional in_optional : Usage → Usage

-- The words for an element: "enumerator", "field", "method", "parameter", "result field".
pub data ElementKind : Type 0 where
  enumerator field method parameter result_field : ElementKind

pub data Message : Type 0 where
  module_defined : String → FilePath → Message
  declaration_defined : String → FilePath → Message
  duplicate_name : ElementKind → String → Owner → Message
  id_zero : ElementKind → Owner → Message
  id_too_large duplicate_id : ElementKind → ℕ → Owner → Message
  gap_between : ℕ → ℕ → ElementKind → Owner → Message
  unknown_type : String → Usage → Message
  nested_optional bad_map_key : Usage → Message

pub record Diagnostic : Type 0 where
  pub severity : Severity
  pub location : SourceLocation
  pub message : Message

-- `DiagnosticSink::report`
unfoldable pub report : Severity → SourceLocation → Message → List Diagnostic → List Diagnostic
report severity location message sink =
    sink ++ (record { severity = severity; location = location; message = message } ∷ [])

-- `std::any_of`, of the severities.
unfoldable pub any_of : (Severity → Bool) → List Diagnostic → Bool
any_of test [] = false
any_of test (d ∷ sink) = test d.severity || any_of test sink

abbrev pub is_error : Severity → Bool
is_error error = true
is_error _ = false

abbrev pub is_warning : Severity → Bool
is_warning warning = true
is_warning _ = false

abbrev pub is_note : Severity → Bool
is_note note = true
is_note _ = false

abbrev pub has_errors : List Diagnostic → Bool
has_errors sink = any_of is_error sink

abbrev pub has_warnings : List Diagnostic → Bool
has_warnings sink = any_of is_warning sink

abbrev pub has_notes : List Diagnostic → Bool
has_notes sink = any_of is_note sink

clear : List Diagnostic → List Diagnostic
clear sink = []

-- The loop of `locate` over what the iterators find in front of a node.
unfoldable pub scan : ℕ → List ℕ → ℕ → ℕ → ℕ × ℕ
scan zero content line column = (line, column)
scan (suc n) [] line column = (line, column)
scan (suc n) (c ∷ content) line column =
    scan n content (if c == 0x0A then suc line else line) (if c == 0x0A then 1 else suc column)

unfoldable pub locate : PositionTagged → SourceFile → SourceLocation
unfolding scan
locate none file = record { file = file.path; line = 0; column = 0 }
locate (some begin) file = record {
  file = file.path;
  line = (scan begin file.position_cache 1 1).0;
  column = (scan begin file.position_cache 1 1).1;
}
