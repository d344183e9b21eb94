-- ===== src/ErrorsGenerate/Template.antt =====
-- The template `tmpl` of p11kit/errors_generate.go: the text around the two lists of codes.
use Prim.Native.String.{String}
use go_p11_kit.Base.{ℕ, List, [], ◌∷◌, ◌++◌, codes}

unfoldable pub lines_of : List String → List ℕ
lines_of [] = []
lines_of (line ∷ rest) = codes line ++ 10 ∷ lines_of rest

abbrev pub before_names : List String
before_names =
    "// Copyright 2022 Google LLC" ∷ "//"
    ∷ "// Licensed under the Apache License, Version 2.0 (the \"License\");"
    ∷ "// you may not use this file except in compliance with the License."
    ∷ "// You may obtain a copy of the License at" ∷ "//"
    ∷ "//     https://www.apache.org/licenses/LICENSE-2.0" ∷ "//"
    ∷ "// Unless required by applicable law or agreed to in writing, software"
    ∷ "// distributed under the License is distributed on an \"AS IS\" BASIS,"
    ∷ "// WITHOUT WARRANTIES OR CONDITIONS OF ANY KIND, either express or implied."
    ∷ "// See the License for the specific language governing permissions and"
    ∷ "// limitations under the License." ∷ ""
    ∷ "// Code generated by errors_generate.go; DO NOT EDIT." ∷ ""
    ∷ "//go:generate go run errors_generate.go" ∷ "" ∷ "package p11kit" ∷ "" ∷ "import \"fmt\"" ∷ ""
    ∷ "// pkcs11Error represents a PKCS #11 return code." ∷ "type pkcs11Error uint64" ∷ ""
    ∷ "// Error returns the spec name of the error." ∷ "func (e pkcs11Error) Error() string {"
    ∷ "\tif s, ok := errStrings[e]; ok {" ∷ "\t\treturn s" ∷ "\t}"
    ∷ "\treturn fmt.Sprintf(\"unknown pkcs11 error: 0x%08x\", uint64(e))" ∷ "}" ∷ ""
    ∷ "var errStrings = map[pkcs11Error]string{" ∷ []

abbrev pub before_values : List String
before_values =
    "" ∷ "}" ∷ "" ∷ "// Error codes defined PKCS #11." ∷ "//"
    ∷ "// http://docs.oasis-open.org/pkcs11/pkcs11-base/v2.40/csd02/pkcs11-base-v2.40-csd02.html#_Toc385435538"
    ∷ "const (" ∷ []

abbrev pub after_values : List String
after_values = "" ∷ ")" ∷ []
