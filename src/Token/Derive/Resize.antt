-- ===== src/Token/Derive/Resize.antt =====
-- `resizeSecret` of p11kit/attribute.go.
use go_p11_kit.Base.{
  ℕ, zero, suc, ◌-◌, ◌≤◌, ◌<◌, ◌≡◌, refl, ◌++◌, ◌==◌, ==_iff, length, length-append, length-take,
  length-replicate, take, replicate, arith, Bool-cases, inl, inr, le→ltb, lt→ltb,
}
use go_p11_kit.Result.{ok}
use go_p11_kit.Wire.Buffer.{Bytes, be_value}
use go_p11_kit.Token.Derive.{resized, resize_secret, max_alloc}

be_value-zeros : (n : ℕ) (xs : Bytes) → be_value 0 (replicate n 0 ++ xs) ≡ be_value 0 xs
be_value-zeros zero xs = refl
be_value-zeros (suc n) xs = be_value-zeros n xs

length-resized : (secret : Bytes) (n : ℕ) → length (resized secret n) ≡ n
unfolding resized
length-resized secret n = ground (
  arith,
  length-take n secret,
  length-append {0} (replicate (n - length secret) 0) secret,
  length-replicate {A = ℕ} (n - length secret) 0,
)

be_value-resized :
    (secret : Bytes) (n : ℕ) → length secret ≤ n → be_value 0 (resized secret n) ≡ be_value 0 secret
unfolding resized
be_value-resized secret n h = ground (arith, be_value-zeros (n - length secret) secret)

-- For a length that can be allocated, `resizeSecret` returns a secret of that length: a secret that
-- it makes longer keeps its value as a big-endian number, and one that it makes shorter keeps its
-- leading bytes.
pub resize_secret_lem :
    (secret : Bytes) (n : ℕ)
    → n ≤ max_alloc
    → (out : Bytes) × (resize_secret secret n ≡ ok out)
      × (length out ≡ n)
      × (length secret ≤ n → be_value 0 out ≡ be_value 0 secret)
      × (n < length secret → out ≡ take n secret)
unfolding resize_secret
resize_secret_lem secret n h = elim (Bool-cases (length secret == n)) [
  | inl same ↦ (
    secret,
    rw same,
    (==_iff _ n).0 same,
    λ _. refl,
    λ k. absurd (omega (arith, (==_iff _ n).0 same)),
  )
  | inr other ↦ (
    resized secret n,
    rw (other, le→ltb max_alloc n h),
    length-resized secret n,
    be_value-resized secret n,
    λ k. unfold resized in rw (lt→ltb n _ k),
  )
]
