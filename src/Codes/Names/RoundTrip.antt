-- ===== src/Codes/Names/RoundTrip.antt =====
-- The `String` methods of p11kit/, and a reader of their texts.
use Prim.Native.String.{String}
use native.Mathlib.Numerals.{unary_clauses}
use go_p11_kit.Base.{
  ℕ, zero, suc, ◌+◌, ◌-◌, ◌*◌, ◌/◌, ◌%◌, ◌^◌, ◌<◌, ◌≤◌, ◌≡◌, refl, ap, sym, ◌∙◌, subst, Bool, true,
  false, ◌&&◌, not, Option, none, some, some-injective, List, [], ◌∷◌, ◌++◌, ltb, ◌==◌,
  if◌then◌else◌, length, drop, replicate, bytes_equal, codes, arith, append_assoc, append-nil,
  Bool-cases, inl, inr, ltb→lt, ==_iff,
}
use go_p11_kit.Codes.Errors.{err_strings}
use go_p11_kit.Codes.Calls.{call_strings}
use go_p11_kit.Codes.AttributeNames.{attribute_strings}
use go_p11_kit.Codes.Names.{
  digit, number, decimal, hex, pad, find_string, name_or, error_string, call_string,
  attribute_string, mechanism_to_string, mechanism_string,
}

abbrev undigit : ℕ → ℕ
undigit c = if ltb c 58 then c - 48 else c - 87

-- The number before a `)` or the end.
abbrev pub read_digits : ℕ → ℕ → List ℕ → ℕ
read_digits base acc [] = acc
read_digits base acc (c ∷ s) =
    let rest = read_digits base (acc * base + undigit c) s in if c == 41 then acc else rest

undigit-digit : (k : ℕ) → k < 16 → undigit (digit k) ≡ k
undigit-digit k h = ground arith

digit-other : (k : ℕ) → (digit k == 41) ≡ false
digit-other k = ground arith

read_digits-digit :
    (base acc k : ℕ) (s : List ℕ)
    → k < 16
    → read_digits base acc (digit k ∷ s) ≡ read_digits base (acc * base + k) s
read_digits-digit base acc k s h = rw (digit-other k, undigit-digit k h)

-- What is used of the bases 10 and 16.
record IsBase (base : ℕ) : Type 0 where
  small : base ≤ 16
  remainder : (n : ℕ) → n % base < base
  split : (n : ℕ) → n / base * base + n % base ≡ n
  quotient : (n m : ℕ) → n < m * base → n / base < m

ten-IsBase : IsBase 10
ten-IsBase = record {
  small = omega arith;
  remainder = λ n. omega arith;
  split = λ n. omega arith;
  quotient = λ n m h. omega arith;
}

sixteen-IsBase : IsBase 16
sixteen-IsBase = record {
  small = omega arith;
  remainder = λ n. omega arith;
  split = λ n. omega arith;
  quotient = λ n m h. omega arith;
}

times_zero : (base n : ℕ) → 0 * base + n ≡ n
times_zero base n = omega arith

read_digits-number :
    (base : ℕ)
    → IsBase base
    → (fuel n : ℕ) (s : List ℕ) → n < base ^ fuel
    → read_digits base 0 (number base fuel n ++ s) ≡ read_digits base n s
unfolding number
read_digits-number base b zero n s h =
    ap (λ m. read_digits base m s) (omega (arith, simp unary_clauses at h))
read_digits-number base b (suc fuel) n s h = elim (Bool-cases (ltb n base)) [
  | inl low ↦ rw low (
      read_digits-digit base 0 n s (omega (arith, b.small, ltb→lt n base low))
      ∙ ap (λ m. read_digits base m s) (times_zero base n))
  | inr high ↦ rw high (
      ap (read_digits base 0) (append_assoc (number base fuel (n / base)) (digit (n % base) ∷ []) s)
      ∙ read_digits-number base b fuel (n / base) (digit (n % base) ∷ s)
          (b.quotient n (base ^ fuel) (simp unary_clauses at h))
      ∙ read_digits-digit base (n / base) (n % base) s (omega (arith, b.small, b.remainder n))
      ∙ ap (λ m. read_digits base m s) (b.split n))
]

read_digits-zeros :
    (base k : ℕ) (s : List ℕ) → read_digits base 0 (replicate k 48 ++ s) ≡ read_digits base 0 s
read_digits-zeros base zero s = refl
read_digits-zeros base (suc k) s =
    ap (λ m. read_digits base m (replicate k 48 ++ s)) (times_zero base 0)
    ∙ read_digits-zeros base k s

-- The first number that has the name.
abbrev pub find_code : List (ℕ × String) → List ℕ → Option ℕ
find_code [] text = none
find_code ((n, s) ∷ table) text =
    let rest = find_code table text in if bytes_equal (codes s) text then some n else rest

abbrev agrees : Option ℕ → ℕ → Bool
agrees none n = false
agrees (some m) n = m == n

-- Whether each name of `part` is that of its own number alone in `whole`.
abbrev is_faithful : List (ℕ × String) → List (ℕ × String) → Bool
is_faithful whole [] = true
is_faithful whole ((n, s) ∷ part) =
    let rest = is_faithful whole part in agrees (find_code whole (codes s)) n && rest

abbrev begins : List ℕ → List ℕ → Bool
begins [] text = true
begins (c ∷ prefix) [] = false
begins (c ∷ prefix) (d ∷ text) = c == d && begins prefix text

-- Whether no name begins with the prefix.
abbrev is_free : List (ℕ × String) → List ℕ → Bool
is_free [] prefix = true
is_free ((n, s) ∷ table) prefix =
    let rest = is_free table prefix in not (begins prefix (codes s)) && rest

begins-equal :
    (prefix text name : List ℕ)
    → bytes_equal name (prefix ++ text) ≡ true
    → begins prefix name ≡ true
begins-equal [] text name h = refl
begins-equal (c ∷ prefix) text [] h = cc
begins-equal (c ∷ prefix) text (d ∷ name) h = ground (arith, begins-equal prefix text name)

find_code-free :
    (table : List (ℕ × String)) (prefix text : List ℕ)
    → is_free table prefix ≡ true
    → find_code table (prefix ++ text) ≡ none
find_code-free [] prefix text h = refl
find_code-free ((n, s) ∷ table) prefix text h =
    ground (arith, begins-equal prefix text (codes s), find_code-free table prefix text)

agrees-eq : (o : Option ℕ) (n : ℕ) → agrees o n ≡ true → o ≡ some n
agrees-eq none n h = cc
agrees-eq (some m) n h = ground arith

&&-left : (a b : Bool) → a && b ≡ true → a ≡ true
&&-left true b h = refl
&&-left false b h = h

&&-right : (a b : Bool) → a && b ≡ true → b ≡ true
&&-right true b h = h
&&-right false b h = cc

find_code-name :
    (whole part : List (ℕ × String)) (n : ℕ) (s : String)
    → is_faithful whole part ≡ true
    → find_string part n ≡ some s
    → find_code whole (codes s) ≡ some n
unfolding find_string
find_code-name whole [] n s h e = cc
find_code-name whole ((k, t) ∷ part) n s h e = elim (Bool-cases (k == n)) [
  | inl same ↦
      subst (λ x. find_code whole (codes x) ≡ some n) (some-injective (rw same at e))
        (agrees-eq (find_code whole (codes t)) k (&&-left _ _ h) ∙ ap some ((==_iff k n).0 same))
  | inr differs ↦ find_code-name whole part n s (&&-right _ _ h) (rw differs at e)
]

abbrev or_else : Option ℕ → ℕ → ℕ
or_else none n = n
or_else (some m) n = m

-- A reader of texts: a name of the table, or a number in the base behind the prefix.
unfoldable pub read_name : List (ℕ × String) → ℕ → List ℕ → List ℕ → ℕ
read_name table base prefix text =
    or_else (find_code table text) (read_digits base 0 (drop (length prefix) text))

drop-append : (front back : List ℕ) → drop (length front) (front ++ back) ≡ back
drop-append [] back = refl
drop-append (c ∷ front) back = drop-append front back

read_name-name_or :
    (table : List (ℕ × String)) (base : ℕ) (prefix text : List ℕ) (n : ℕ)
    → is_faithful table table ≡ true
    → is_free table prefix ≡ true
    → read_digits base 0 text ≡ n
    → read_name table base prefix (name_or (find_string table n) (prefix ++ text)) ≡ n
unfolding read_name
read_name-name_or table base prefix text n faithful free e = cases (find_string table n) refl
  where
    cases :
        (o : Option String)
        → find_string table n ≡ o
        → read_name table base prefix (name_or o (prefix ++ text)) ≡ n
    cases none found = rw (find_code-free table prefix text free, drop-append prefix text) e
    cases (some s) found = rw (find_code-name table table n s faithful found) refl

read_digits-hex :
    (n : ℕ) (s : List ℕ) → n < 2 ^ 64 → read_digits 16 0 (hex n ++ s) ≡ read_digits 16 n s
unfolding hex
read_digits-hex n s h = read_digits-number 16 sixteen-IsBase 16 n s h

read_digits-pad :
    (width : ℕ) (n : ℕ) (s : List ℕ)
    → n < 2 ^ 64
    → read_digits 16 0 (pad width (hex n) ++ s) ≡ read_digits 16 n s
unfolding pad
read_digits-pad width n s h =
    ap (read_digits 16 0) (append_assoc (replicate (width - length (hex n)) 48) (hex n) s)
    ∙ read_digits-zeros 16 (width - length (hex n)) (hex n ++ s)
    ∙ read_digits-hex n s h

read_digits-decimal :
    (n : ℕ) (s : List ℕ) → n < 2 ^ 64 → read_digits 10 0 (decimal n ++ s) ≡ read_digits 10 n s
unfolding decimal
read_digits-decimal n s h = read_digits-number 10 ten-IsBase 20 n s (omega arith)

-- The text of a return code, a call, an attribute type and a mechanism determines the number: a reader
-- that looks the text up among the names of the table, and otherwise reads the number behind the prefix,
-- gets back every uint64, whether it has a name or not.
pub read_name-string :
    (n : ℕ)
    → n < 2 ^ 64
    → (read_name err_strings 16 (codes "unknown pkcs11 error: 0x") (error_string n) ≡ n)
      × (read_name call_strings 10 (codes "unknown call(") (call_string n) ≡ n)
      × (read_name attribute_strings 16 (codes "attribute(0x") (attribute_string n) ≡ n)
      × (read_name mechanism_to_string 16 (codes "CK_MECHANISM_TYPE(0x") (mechanism_string n) ≡ n)
unfolding error_string call_string attribute_string mechanism_string err_strings call_strings
    attribute_strings mechanism_to_string
read_name-string n h = (
  read_name-name_or err_strings 16 (codes "unknown pkcs11 error: 0x") (pad 8 (hex n)) n refl refl
      (ap (read_digits 16 0) (sym (append-nil (pad 8 (hex n)))) ∙ read_digits-pad 8 n [] h),
  read_name-name_or call_strings 10 (codes "unknown call(") (decimal n ++ codes ")") n refl refl
      (read_digits-decimal n (codes ")") h),
  read_name-name_or attribute_strings 16 (codes "attribute(0x") (hex n ++ codes ")") n refl refl
      (read_digits-hex n (codes ")") h),
  read_name-name_or mechanism_to_string 16 (codes "CK_MECHANISM_TYPE(0x")
      (pad 8 (hex n) ++ codes ")") n refl refl (read_digits-pad 8 n (codes ")") h),
)
