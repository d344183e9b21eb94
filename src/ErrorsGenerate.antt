-- ===== src/ErrorsGenerate.antt =====
-- p11kit/errors_generate.go: the generator of p11kit/errors.go.
pub mod Raw
pub mod Template
pub mod Lines
use go_p11_kit.Base.{
  ℕ, Bool, true, false, Option, none, some, List, [], ◌∷◌, ◌++◌, ◌||◌, ltb, if◌then◌else◌, length,
  take, drop, map, bytes_equal, codes, concat, split, fields, to_lower, trim_suffix,
}
use go_p11_kit.ErrorsGenerate.Raw.{ckr_raw}
use go_p11_kit.ErrorsGenerate.Template.{lines_of, before_names, before_values, after_values}

pub record ErrorCode : Type 0 where
  pub spec_name : List ℕ
  pub go_name : List ℕ
  pub value : List ℕ

-- The `switch` on a word: acronyms are kept, and of any other word the first letter alone.
unfoldable pub cased : List ℕ → List ℕ
unfolding to_lower
cased word =
    if bytes_equal word (codes "ID")
      || (bytes_equal word (codes "PIN") || bytes_equal word (codes "RNG"))
    then word
    else if ltb 1 (length word)
    then take 1 word ++ to_lower (drop 1 word)
    else word

unfoldable pub to_go_name : List ℕ → List ℕ
unfolding split cased
to_go_name spec_name = codes "err" ++ concat (map cased (drop 1 (split spec_name b'_')))

-- One round of the loop of `main`, on the fields of a line: CKR_OK and any line that has not three
-- fields are passed over.
unfoldable pub code_of : List (List ℕ) → List ErrorCode
unfolding to_go_name trim_suffix to_lower
code_of (define ∷ spec_name ∷ number ∷ []) =
    if bytes_equal spec_name (codes "CKR_OK")
    then []
    else record {
      spec_name = spec_name;
      go_name = to_go_name spec_name;
      value = to_lower (trim_suffix number (codes "UL"));
    }
      ∷ []
code_of [] = []
code_of (a ∷ []) = []
code_of (a ∷ b ∷ []) = []
code_of (a ∷ b ∷ c ∷ d ∷ more) = []

unfoldable pub codes_of : List (List ℕ) → List ErrorCode
unfolding code_of fields
codes_of [] = []
codes_of (line ∷ rest) = code_of (fields line) ++ codes_of rest

unfoldable pub error_codes : List ℕ → List ErrorCode
unfolding codes_of split
error_codes text = codes_of (split text 10)

-- {{ .GoName }}: "{{ .SpecName }}",
abbrev pub name_line : ErrorCode → List ℕ
name_line c = c.go_name ++ (codes ": \"" ++ (c.spec_name ++ (codes "\"," ++ 10 ∷ [])))

-- {{ .GoName }} pkcs11Error = {{ .Value }}
abbrev pub value_line : ErrorCode → List ℕ
value_line c = c.go_name ++ (codes " pkcs11Error = " ++ (c.value ++ 10 ∷ []))

-- tmpl.Execute
unfoldable pub execute : List ErrorCode → List ℕ
unfolding lines_of
execute cs =
    lines_of before_names
    ++ (concat (map name_line cs)
        ++ (lines_of before_values ++ (concat (map value_line cs) ++ lines_of after_values)))

-- How the generator ends. A template over these fields cannot fail.
pub data Generated : Type 0 where
  formatting_failed writing_failed : Generated
  written : List ℕ → Generated

abbrev pub write_file : Option (List ℕ) → Bool → Generated
write_file none writable = formatting_failed
write_file (some out) true = written out
write_file (some out) false = writing_failed

-- `format` is go/format's Source, where `none` is its error, and `writable` whether errors.go can be
-- written.
unfoldable pub main : (format : List ℕ → Option (List ℕ)) → (writable : Bool) → Generated
unfolding execute error_codes ckr_raw
main format writable = write_file (format (execute (error_codes ckr_raw))) writable
