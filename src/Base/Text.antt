-- ===== src/Base/Text.antt =====
-- Texts as lists of bytes: literals, and the ASCII functions of Go's `strings` that the code calls.
use Prim.Native.Char.{code}
use Prim.Native.String.{String}
use Prim.Native.Nat.{ℕ, ◌+◌, ◌-◌}
use mathlib.Core.Bool.{Bool, ◌&&◌, ◌||◌}
use mathlib.Core.List.{List, [], ◌∷◌, ◌++◌, map}
use go_p11_kit.Base.Tests.{leb, ◌==◌, if◌then◌else◌}
use go_p11_kit.Base.Lists.{length, take, drop, bytes_equal}

-- The bytes of an ASCII literal.
abbrev pub codes : String → List ℕ
codes String.[] = []
codes (String.◌∷◌ c s) = code c ∷ codes s

-- A byte before the first piece.
abbrev pub push_front : ℕ → List (List ℕ) → List (List ℕ)
push_front c [] = (c ∷ []) ∷ []
push_front c (w ∷ ws) = (c ∷ w) ∷ ws

-- The pieces between the bytes that pass a test.
unfoldable pub split_by : (ℕ → Bool) → List ℕ → List (List ℕ)
split_by sep [] = [] ∷ []
split_by sep (c ∷ s) = let rest = split_by sep s in if sep c then [] ∷ rest else push_front c rest

-- strings.Split(s, sep) for a separator of one byte
unfoldable pub split : List ℕ → ℕ → List (List ℕ)
unfolding split_by
split s sep = split_by (λ c. c == sep) s

abbrev pub is_space : ℕ → Bool
is_space c = c == 32 || leb 9 c && leb c 13

unfoldable pub non_empty : List (List ℕ) → List (List ℕ)
non_empty [] = []
non_empty ([] ∷ ws) = non_empty ws
non_empty ((c ∷ w) ∷ ws) = (c ∷ w) ∷ non_empty ws

-- strings.Fields
unfoldable pub fields : List ℕ → List (List ℕ)
unfolding split_by non_empty
fields s = non_empty (split_by is_space s)

abbrev pub lower : ℕ → ℕ
lower c = if leb 65 c && leb c 90 then c + 32 else c

-- strings.ToLower
unfoldable pub to_lower : List ℕ → List ℕ
to_lower s = map lower s

-- strings.TrimSuffix
unfoldable pub trim_suffix : List ℕ → List ℕ → List ℕ
trim_suffix s suffix =
    let front = length s - length suffix in
    if leb (length suffix) (length s) && bytes_equal (drop front s) suffix then take front s else s

abbrev pub concat {ℓ} : {A : Type ℓ} → List (List A) → List A
concat [] = []
concat (x ∷ xs) = x ++ concat xs
