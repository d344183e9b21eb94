-- ===== src/ErrorsGenerate/Lines.antt =====
-- The loop of p11kit/errors_generate.go over texts of `#define` lines.
use go_p11_kit.Base.{
  true, arith, if◌then◌else◌, ℕ, zero, suc, ◌≡◌, refl, ap, ◌∙◌, Bool, true, false, List, [], ◌∷◌,
  ◌++◌, map, replicate, if◌then◌else◌, ◌==◌, arith, All, All-append, ◌▸◌, bytes_equal, codes,
  split_by, split, is_space, non_empty, fields, trim_suffix, to_lower, Bool-cases, inl, inr,
}
use go_p11_kit.ErrorsGenerate.Raw.{spread}
use go_p11_kit.ErrorsGenerate.{ErrorCode, to_go_name, code_of, codes_of, error_codes}

module _ (sep : ℕ → Bool) where
  abbrev Avoids : List ℕ → Type 0
  Avoids = All (λ c. sep c ≡ false)

  split_by-word : (w : List ℕ) → Avoids w → split_by sep w ≡ w ∷ []
  unfolding split_by
  split_by-word [] h = refl
  split_by-word (c ∷ w) h = rw (h.0, split_by-word w h.1)

  split_by-append :
      (w : List ℕ) (c : ℕ) (rest : List ℕ)
      → Avoids w
      → sep c ≡ true
      → split_by sep (w ++ c ∷ rest) ≡ w ∷ split_by sep rest
  unfolding split_by
  split_by-append [] c rest h e = rw e
  split_by-append (x ∷ w) c rest h e = rw (h.0, split_by-append w c rest h.1 e)

-- One byte at least, and no white space.
abbrev pub IsWord : List ℕ → Type 0
IsWord [] = ⊥
IsWord (c ∷ w) = All (λ c. is_space c ≡ false) (c ∷ w)

-- Whether every byte passes.
abbrev pub spaceless : List ℕ → Bool
spaceless [] = true
spaceless (c ∷ w) = let rest = spaceless w in if is_space c then false else rest

spaceless-All : (w : List ℕ) → spaceless w ≡ true → All (λ c. is_space c ≡ false) w
spaceless-All [] h = tt
spaceless-All (c ∷ w) h = ground (arith, spaceless-All w)

abbrev pub is_word : List ℕ → Bool
is_word [] = false
is_word (c ∷ w) = spaceless (c ∷ w)

pub is_word-IsWord : (w : List ℕ) → is_word w ≡ true → IsWord w
is_word-IsWord [] h = cc
is_word-IsWord (c ∷ w) h = spaceless-All (c ∷ w) h

fields-append : (w : List ℕ) (rest : List ℕ) → IsWord w → fields (w ++ 32 ∷ rest) ≡ w ∷ fields rest
unfolding fields non_empty
fields-append [] rest h = absurd h
fields-append (c ∷ w) rest h = rw (split_by-append is_space (c ∷ w) 32 rest h refl)

fields-word : (w : List ℕ) → IsWord w → fields w ≡ w ∷ []
unfolding fields non_empty
fields-word [] h = absurd h
fields-word (c ∷ w) h = rw (split_by-word is_space (c ∷ w) h)

fields-spaces : (n : ℕ) (rest : List ℕ) → fields (replicate n 32 ++ rest) ≡ fields rest
unfolding fields split_by non_empty
fields-spaces zero rest = refl
fields-spaces (suc n) rest = fields-spaces n rest

-- `#define NAME`, spaces, one at least, and a number.
pub record Define : Type 0 where
  pub name : List ℕ
  pub padding : ℕ
  pub number : List ℕ

abbrev pub define_line : Define → List ℕ
define_line d = codes "#define" ++ 32 ∷ (d.name ++ 32 ∷ (replicate d.padding 32 ++ d.number))

abbrev pub IsDefine : Define → Type 0
IsDefine d = IsWord d.name × IsWord d.number

define-IsWord : IsWord (codes "#define")
define-IsWord = refl ▸ refl ▸ refl ▸ refl ▸ refl ▸ refl ▸ refl ▸ tt

fields-define_line :
    (d : Define) → IsDefine d → fields (define_line d) ≡ codes "#define" ∷ d.name ∷ d.number ∷ []
fields-define_line d h =
    fields-append (codes "#define") _ define-IsWord
    ∙ ap (◌∷◌ (codes "#define")) (
        fields-append d.name _ h.0
        ∙ ap (◌∷◌ d.name) (fields-spaces d.padding d.number ∙ fields-word d.number h.1))

-- A space that is no newline.
not_newline : (c : ℕ) → is_space c ≡ false → (c == 10) ≡ false
not_newline c h = ground arith

Avoids-word : (w : List ℕ) → All (λ c. is_space c ≡ false) w → Avoids (λ c. c == 10) w
Avoids-word [] h = tt
Avoids-word (c ∷ w) h = (not_newline c h.0, Avoids-word w h.1)

Avoids-IsWord : (w : List ℕ) → IsWord w → Avoids (λ c. c == 10) w
Avoids-IsWord [] h = tt
Avoids-IsWord (c ∷ w) h = Avoids-word (c ∷ w) h

Avoids-spaces : (n : ℕ) → Avoids (λ c. c == 10) (replicate n 32)
Avoids-spaces zero = tt
Avoids-spaces (suc n) = (refl, Avoids-spaces n)

OneLine-append :
    (front back : List ℕ)
    → Avoids (λ c. c == 10) front
    → Avoids (λ c. c == 10) back
    → Avoids (λ c. c == 10) (front ++ 32 ∷ back)
OneLine-append front back h e = All-append (λ c. c == 10 ≡ false) front (32 ∷ back) h (refl, e)

Avoids-define_line : (d : Define) → IsDefine d → Avoids (λ c. c == 10) (define_line d)
Avoids-define_line d h =
    OneLine-append (codes "#define") (d.name ++ 32 ∷ (replicate d.padding 32 ++ d.number))
      (Avoids-IsWord (codes "#define") define-IsWord)
      (OneLine-append d.name (replicate d.padding 32 ++ d.number) (Avoids-IsWord d.name h.0) (
        All-append (λ c. c == 10 ≡ false) (replicate d.padding 32) d.number
          (Avoids-spaces d.padding) (Avoids-IsWord d.number h.1)))

split-spread :
    (line : List ℕ) (rest : List (List ℕ))
    → Avoids (λ c. c == 10) line
    → split (spread (line ∷ rest)) 10 ≡ [] ∷ line ∷ split (spread rest) 10
unfolding split spread
split-spread line rest h =
    split_by-append (λ c. c == 10) [] 10 (line ++ 10 ∷ spread rest) tt refl
    ∙ ap (◌∷◌ []) (split_by-append (λ c. c == 10) line 10 (spread rest) h refl)

codes_of-define_line :
    (d : Define) (rest : List (List ℕ))
    → IsDefine d
    → codes_of ([] ∷ define_line d ∷ rest)
      ≡ code_of (codes "#define" ∷ d.name ∷ d.number ∷ []) ++ codes_of rest
unfolding codes_of code_of fields split_by non_empty
codes_of-define_line d rest h = ap (λ w. code_of w ++ codes_of rest) (fields-define_line d h)

-- What the generator is to make of a definition before those that follow: nothing of CKR_OK, and
-- otherwise a code under its name in the specification and in Go, its number in lower case without
-- the suffix.
abbrev pub with_code : Define → List ErrorCode → List ErrorCode
with_code d rest =
    if bytes_equal d.name (codes "CKR_OK")
    then rest
    else record {
      spec_name = d.name;
      go_name = to_go_name d.name;
      value = to_lower (trim_suffix d.number (codes "UL"));
    }
      ∷ rest

abbrev pub listed : List Define → List ErrorCode
listed [] = []
listed (d ∷ ds) = with_code d (listed ds)

code_of-define :
    (d : Define) (rest : List ErrorCode)
    → code_of (codes "#define" ∷ d.name ∷ d.number ∷ []) ++ rest ≡ with_code d rest
unfolding code_of
code_of-define d rest = elim (Bool-cases (bytes_equal d.name (codes "CKR_OK"))) [
  | inl e ↦ rw e
  | inr e ↦ rw e
]

-- From a text of `#define` lines with blank lines between, whose names and numbers are words and which
-- are padded with any number of spaces, the generator makes exactly the codes listed.
pub error_codes-spread :
    (ds : List Define) → All IsDefine ds → error_codes (spread (map define_line ds)) ≡ listed ds
unfolding error_codes codes_of code_of split split_by spread fields non_empty
error_codes-spread [] h = refl
error_codes-spread (d ∷ ds) h =
    ap codes_of (split-spread (define_line d) (map define_line ds) (Avoids-define_line d h.0))
    ∙ codes_of-define_line d (split (spread (map define_line ds)) 10) h.0
    ∙ code_of-define d (error_codes (spread (map define_line ds)))
    ∙ ap (with_code d) (error_codes-spread ds h.1)
