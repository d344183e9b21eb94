-- ===== src/Token/Derive/Kdf.antt =====
-- `x963KDF` of p11kit/attribute.go and the stream of hashes that it cuts off.
use go_p11_kit.Base.{
  ℕ, zero, suc, ◌+◌, ◌/◌, ◌%◌, ◌^◌, ◌≤◌, ◌<◌, ◌≡◌, refl, ap, sym, ◌∙◌, List, [], ◌∷◌, ◌++◌, ltb,
  length, length-append, length-take, take, arith, Bool-cases, inl, inr, append-nil, append_assoc,
}
use go_p11_kit.Base.Int.{pos}
use go_p11_kit.Result.{ok}
use go_p11_kit.Wire.Buffer.{Bytes, be32}
use go_p11_kit.Token.Keys.{Hash, hash_size}
use go_p11_kit.Token.Env.{Env}
use go_p11_kit.Token.Derive.{kdf_block, kdf_loop, x963_kdf}

take-append_long {ℓ} :
    {A : Type ℓ} (n : ℕ) (xs ys : List A) → n ≤ length xs → take n (xs ++ ys) ≡ take n xs
take-append_long zero xs ys h = refl
take-append_long (suc n) [] ys h = absurd (omega arith)
take-append_long (suc n) (x ∷ xs) ys h = ap (◌∷◌ x) (take-append_long n xs ys (omega arith))

module _ (env : Env) (h : Hash) (secret shared : Bytes) where
  -- `k` hashes from a counter on, each of the secret, the four bytes of the counter with the highest
  -- first, and the shared data.
  pub key_stream : ℕ → ℕ → Bytes
  key_stream zero counter = []
  key_stream (suc k) counter =
      env.hash h (
        secret
        ++ (counter / 2 ^ 24 % 256)
          ∷ (counter / 2 ^ 16 % 256)
          ∷ (counter / 2 ^ 8 % 256)
          ∷ (counter % 256)
          ∷ shared)
      ++ key_stream k ((counter + 1) % 2 ^ 32)

  take-kdf_loop :
      (fuel out_len counter : ℕ) (out : Bytes)
      → take out_len (kdf_loop env fuel h secret shared out_len counter out)
        ≡ take out_len (out ++ key_stream fuel counter)
  unfolding kdf_loop key_stream kdf_block be32
  take-kdf_loop zero out_len counter out = rw append-nil
  take-kdf_loop (suc fuel) out_len counter out = elim (Bool-cases (ltb (length out) out_len)) [
    | inl short ↦ rw short (
        take-kdf_loop fuel out_len ((counter + 1) % 2 ^ 32)
          (out ++ kdf_block env h secret shared counter)
        ∙ rw append_assoc)
    | inr long ↦ rw long (sym (take-append_long out_len out _ (ground arith)))
  ]

  length-key_stream :
      (k counter : ℕ)
      → ((b : Bytes) → length (env.hash h b) ≡ hash_size h)
      → 0 < hash_size h
      → k ≤ length (key_stream k counter)
  unfolding key_stream kdf_block be32
  length-key_stream zero counter sized positive = omega arith
  length-key_stream (suc k) counter sized positive = omega (
    arith,
    length-append (kdf_block env h secret shared counter) (key_stream k ((counter + 1) % 2 ^ 32)),
    sized (secret ++ (be32 counter ++ shared)),
    length-key_stream k ((counter + 1) % 2 ^ 32) sized positive,
  )

  -- For a hash of a fixed positive size and a positive length, `x963KDF` returns as many bytes as
  -- were asked for, and they are the front of the hashes for the counters 1, 2, and so on, each of the
  -- secret, then the counter's four bytes with the highest first, then the shared data.
  pub x963_kdf_lem :
      (n : ℕ)
      → ((b : Bytes) → length (env.hash h b) ≡ hash_size h)
      → 0 < hash_size h
      → 0 < n
      → (x963_kdf env secret h shared (pos n) ≡ ok (take n (key_stream n 1)))
        × (length (take n (key_stream n 1)) ≡ n)
  unfolding x963_kdf
  x963_kdf_lem zero sized positive h = elim h [ ]
  x963_kdf_lem (suc n) sized positive h = (
    ap ok (take-kdf_loop (suc n) (suc n) 1 []),
    omega (
      arith,
      length-take (suc n) (key_stream (suc n) 1),
      length-key_stream (suc n) 1 sized positive,
    ),
  )
