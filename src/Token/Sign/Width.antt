-- ===== src/Token/Sign/Width.antt =====
-- The encoding of ECDSA signatures at the end of `signECDSA` of p11kit/attribute.go.
use go_p11_kit.Base.{
  ℕ, zero, suc, ◌+◌, ◌*◌, ◌/◌, ◌%◌, ◌^◌, ◌<◌, ◌≤◌, ◌≡◌, refl, ◌∙◌, false, [], ◌∷◌, ◌++◌, length,
  length-append, take, drop, take-length, drop-length, arith,
}
use native.Mathlib.Nat.{pow-suc}
use native.Mathlib.Numerals.{towards_suc}
use go_p11_kit.Result.{ok}
use go_p11_kit.Wire.Buffer.{Bytes, be_value}
use go_p11_kit.Token.Keys.{Curve, order_bits, ecdsa_public}
use go_p11_kit.Token.Sign.{fill_bytes, too_large, scalar_size, raw_signature}

length-fill_bytes : (w x : ℕ) → length (fill_bytes w x) ≡ w
unfolding fill_bytes
length-fill_bytes zero x = refl
length-fill_bytes (suc w) x =
    omega (
      arith,
      length-append (fill_bytes w (x / 256)) ((x % 256) ∷ []),
      length-fill_bytes w (x / 256),
    )

be_value-append :
    (acc : ℕ) (xs : Bytes) (b : ℕ) → be_value acc (xs ++ b ∷ []) ≡ be_value acc xs * 256 + b
be_value-append acc [] b = refl
be_value-append acc (x ∷ xs) b = be_value-append (acc * 256 + x) xs b

be_value-fill_bytes : (w x : ℕ) → x < 256 ^ w → be_value 0 (fill_bytes w x) ≡ x
unfolding fill_bytes
be_value-fill_bytes zero x h = omega arith
be_value-fill_bytes (suc w) x h =
    be_value-append 0 (fill_bytes w (x / 256)) (x % 256)
    ∙ omega (arith, be_value-fill_bytes w (x / 256) (div-lt w x h))
  where
    div-lt : (w x : ℕ) → x < 256 ^ suc w → x / 256 < 256 ^ w
    div-lt w x h = omega (arith, pow-suc 256 w)

pow-byte : (w : ℕ) → 2 ^ (8 * w) ≡ 256 ^ w
pow-byte zero = refl
pow-byte (suc w) = rw eight (simp towards_suc (omega (arith, pow-byte w, pow-suc 256 w)))
  where
    eight : 8 * suc w ≡ 8 * w + 8
    eight = omega arith

fits : (x w : ℕ) → too_large x w ≡ false → x < 256 ^ w
fits x w h = rw (pow-byte w) at below
  where
    below : x < 2 ^ (8 * w)
    below = ground arith

raw_signature_inv :
    (c : Curve) (x y r s : ℕ) (sig : Bytes)
    → raw_signature (ecdsa_public c x y) (r, s) ≡ ok sig
    → (too_large r (scalar_size c) ≡ false)
      × (too_large s (scalar_size c) ≡ false)
      × (sig ≡ fill_bytes (scalar_size c) r ++ fill_bytes (scalar_size c) s)
unfolding raw_signature
raw_signature_inv c x y r s sig h = ground arith

halves :
    (w r s : ℕ) (sig : Bytes)
    → r < 256 ^ w
    → s < 256 ^ w
    → sig ≡ fill_bytes w r ++ fill_bytes w s
    → (length sig ≡ 2 * w) × (be_value 0 (take w sig) ≡ r) × (be_value 0 (drop w sig) ≡ s)
halves w r s sig hr hs e = rw e (
  omega (
    arith,
    length-append (fill_bytes w r) (fill_bytes w s),
    length-fill_bytes w r,
    length-fill_bytes w s,
  ),
  rw front (be_value-fill_bytes w r hr),
  rw back (be_value-fill_bytes w s hs),
)
  where
    front : take w (fill_bytes w r ++ fill_bytes w s) ≡ fill_bytes w r
    front = rw (length-fill_bytes w r) at (take-length (fill_bytes w r) (fill_bytes w s))

    back : drop w (fill_bytes w r ++ fill_bytes w s) ≡ fill_bytes w s
    back = rw (length-fill_bytes w r) at (drop-length (fill_bytes w r) (fill_bytes w s))

-- For an ECDSA key, the two halves of a successful encoding have the fewest bytes that hold as many bits
-- as the curve's order; the first half is R and the second half is S, both big-endian.
pub raw_signature_lem :
    (c : Curve) (x y r s : ℕ) (sig : Bytes)
    → raw_signature (ecdsa_public c x y) (r, s) ≡ ok sig
    → (w : ℕ) × (order_bits c ≤ 8 * w)
      × (8 * w < order_bits c + 8)
      × (length sig ≡ 2 * w)
      × (be_value 0 (take w sig) ≡ r)
      × (be_value 0 (drop w sig) ≡ s)
raw_signature_lem c x y r s sig h =
    let (small_r, small_s, e) = raw_signature_inv c x y r s sig h in
    let (sized, front, back) =
      halves (scalar_size c) r s sig (fits r _ small_r) (fits s _ small_s) e in
    (scalar_size c, omega arith, omega arith, sized, front, back)
