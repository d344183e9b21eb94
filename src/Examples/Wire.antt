-- ===== src/Examples/Wire.antt =====
-- The theorems on the encoding, at concrete values.
use go_p11_kit.Base.{◌<◌, ◌≡◌, refl, ap, Option, some, [], ◌∷◌, ◌++◌, length, arith, ◌▸◌}
use go_p11_kit.Base.Int.{pos}
use go_p11_kit.Codes.Attributes.{attribute_start_date}
use go_p11_kit.Codes.ValueTypes
use go_p11_kit.Codes.ValueTypes.{value_type}
use go_p11_kit.Result.{ok}
use go_p11_kit.Wire.Buffer
use go_p11_kit.Wire.Buffer.{Bytes, be64, null_length, add_byte_array}
use go_p11_kit.Wire.Buffer.RoundTrip.{byte_array-add_byte_array}
use go_p11_kit.Wire.Dates
use go_p11_kit.Wire.Dates.{Time, add_date, days_in}
use go_p11_kit.Wire.Dates.RoundTrip.{IsFourDigit, date-add_date}
use go_p11_kit.Wire.Attributes
use go_p11_kit.Wire.Attributes.{empty_attribute, add_attribute, ulong_attribute, date_attribute}
use go_p11_kit.Wire.Attributes.RoundTrip.{no_value, one_date, attribute-add_attribute}
use go_p11_kit.Wire.Body.{empty_body}
use go_p11_kit.Wire.Body.Write.{write_ulong, write_byte_array, write_attribute_array}
use go_p11_kit.Wire.Body.Read.{string_of, read_ulong, read_byte_array, read_attribute_array}
use go_p11_kit.Wire.Body.RoundTrip.{
  followed, read_ulong-write_ulong, read_byte_array-write_byte_array,
  read_attribute_array-write_attribute_array,
}
use go_p11_kit.Wire.Message.{read_request, write_response}
use go_p11_kit.Wire.Message.RoundTrip.{IsSendable, read_request-write_response}
use go_p11_kit.Wire.Message.Length.{read_request-shorter}
use go_p11_kit.Examples.{open_request}

byte_array-add_byte_array_example :
    Buffer.byte_array (add_byte_array [] (3 ∷ 1 ∷ []) ++ 9 ∷ [])
    ≡ (some (some (3 ∷ 1 ∷ [])), 9 ∷ [])
byte_array-add_byte_array_example = byte_array-add_byte_array (3 ∷ 1 ∷ []) (9 ∷ []) (omega arith)

abbrev leap_day : Time
leap_day = record { year = pos 2024; month = 2; day = 29 }

leap_day-IsFourDigit : IsFourDigit 2024 2 29
leap_day-IsFourDigit = record {
  year_low = omega arith;
  year_high = omega arith;
  month_low = omega arith;
  month_high = omega arith;
  day_low = omega arith;
  day_high = unfold days_in in omega arith;
}

date-add_date_example : Dates.date (add_date [] leap_day ++ 9 ∷ []) ≡ (some leap_day, 9 ∷ [])
date-add_date_example = date-add_date 2024 2 29 (9 ∷ []) leap_day-IsFourDigit

date_type : value_type attribute_start_date ≡ ValueTypes.date
unfolding value_type
date_type = refl

attribute-add_attribute_example :
    Attributes.attribute (add_attribute [] (date_attribute attribute_start_date leap_day) ++ 9 ∷ [])
    ≡ (some (date_attribute attribute_start_date leap_day), 9 ∷ [])
attribute-add_attribute_example =
    attribute-add_attribute (date_attribute attribute_start_date leap_day) (9 ∷ [])
      (one_date attribute_start_date 2024 2 29 (omega arith) date_type leap_day-IsFourDigit)

pub open_request-IsSendable : IsSendable open_request
unfolding write_ulong be64
open_request-IsSendable = record {
  call = omega arith;
  signature = omega arith;
  size = omega arith;
  no_error = refl;
}

read_request-write_response_example :
    read_request (write_response 7 open_request ++ 9 ∷ []) ≡ (ok (7, open_request), 9 ∷ [])
read_request-write_response_example =
    read_request-write_response 7 open_request (9 ∷ []) (omega arith) open_request-IsSendable

read_request-shorter_example :
    length (read_request (write_response 7 open_request ++ 9 ∷ [])).1
    < length (write_response 7 open_request ++ 9 ∷ [])
read_request-shorter_example =
    read_request-shorter (write_response 7 open_request ++ 9 ∷ []) (7, open_request)
      (ap (λ p. p.0) read_request-write_response_example)

read_attribute_array-write_attribute_array_example :
    read_attribute_array (
      followed
        (write_attribute_array
          (empty_body 9)
          (empty_attribute 7 ∷ date_attribute attribute_start_date leap_day ∷ []))
        (1 ∷ [])
        (8 ∷ []))
    ≡ (
      some (empty_attribute 7 ∷ date_attribute attribute_start_date leap_day ∷ []),
      followed (empty_body 9) (1 ∷ []) (8 ∷ []),
    )
read_attribute_array-write_attribute_array_example =
    read_attribute_array-write_attribute_array 9
      (empty_attribute 7 ∷ date_attribute attribute_start_date leap_day ∷ []) (1 ∷ []) (8 ∷ [])
      (omega arith)
      (no_value 7 (omega arith)
        ▸ one_date attribute_start_date 2024 2 29 (omega arith) date_type leap_day-IsFourDigit
        ▸ tt)

read_ulong-write_ulong_example :
    read_ulong (followed (write_ulong (empty_body 9) 3) (1 ∷ []) (8 ∷ []))
    ≡ (some 3, followed (empty_body 9) (1 ∷ []) (8 ∷ []))
read_ulong-write_ulong_example = read_ulong-write_ulong 9 3 (1 ∷ []) (8 ∷ []) (omega arith)

short_array : (a : Bytes) → some (5 ∷ 6 ∷ []) ≡ some a → length a < null_length
short_array a e = omega (arith, ap (λ (o : Option Bytes). length (string_of o)) e)

read_byte_array-write_byte_array_example :
    read_byte_array
      (followed (write_byte_array (empty_body 9) (some (5 ∷ 6 ∷ [])) 2) (1 ∷ []) (8 ∷ []))
    ≡ (some (some (5 ∷ 6 ∷ []), 0), followed (empty_body 9) (1 ∷ []) (8 ∷ []))
read_byte_array-write_byte_array_example =
    read_byte_array-write_byte_array 9 2 (some (5 ∷ 6 ∷ [])) (1 ∷ []) (8 ∷ []) (omega arith)
      short_array
