-- ===== src/Net/Stream.antt =====
-- The stream cipher on runs of bytes.
use Prim.Native.Nat.{bit_xor}
use nihao_github_io.Base.{
  ℕ, suc, ◌%◌, ◌≡◌, refl, ◌∙◌, ap, Bool, true, false, List, [], ◌∷◌, ◌++◌, length,
}
use nihao_github_io.Net.{Turing, next_key, crypt_buff}
use nihao_github_io.Net.Xor.{xor_twice}

module _ {G : Type 0} (turing_gen : G → (ℕ → ℕ) × G) where
  -- What goes over the wire: the bytes, encrypted or not.
  abbrev pub code : Bool → Turing G → List ℕ → List ℕ × Turing G
  code true t bs = crypt_buff turing_gen t bs
  code false t bs = (bs, t)

  -- Two runs of bytes that are encrypted in two calls come out as in one call, and leave the same
  -- keys: neither the size of a packet nor the change of keys within it shows.
  crypt_append :
      (t : Turing G) (xs ys : List ℕ)
      → crypt_buff turing_gen t (xs ++ ys) ≡ (
        (crypt_buff turing_gen t xs).0
            ++ (crypt_buff turing_gen (crypt_buff turing_gen t xs).1 ys).0,
        (crypt_buff turing_gen (crypt_buff turing_gen t xs).1 ys).1,
      )
  unfolding crypt_buff
  crypt_append t [] ys = refl
  crypt_append t (x ∷ xs) ys =
      ap (λ r. (bit_xor x (t.key_stream (t.pos % 340)) ∷ r.0, r.1))
        (crypt_append (next_key turing_gen t) xs ys)

  pub code_append :
      (b : Bool) (t : Turing G) (xs ys : List ℕ)
      → code b t (xs ++ ys)
        ≡ ((code b t xs).0 ++ (code b (code b t xs).1 ys).0, (code b (code b t xs).1 ys).1)
  code_append true t xs ys = crypt_append t xs ys
  code_append false t xs ys = refl

  -- Bytes that `encrypt_buff` encrypted come back from `decrypt_buff` with the same first keys, and
  -- both ends then have the same keys.
  pub crypt_twice :
      (t : Turing G) (bs : List ℕ)
      → crypt_buff turing_gen t (crypt_buff turing_gen t bs).0
        ≡ (bs, (crypt_buff turing_gen t bs).1)
  unfolding crypt_buff
  crypt_twice t [] = refl
  crypt_twice t (b ∷ bs) =
      ap
        (λ r. (
          bit_xor (bit_xor b (t.key_stream (t.pos % 340))) (t.key_stream (t.pos % 340)) ∷ r.0,
          r.1,
        ))
        (crypt_twice (next_key turing_gen t) bs)
      ∙ ap (λ x. (x ∷ bs, (crypt_buff turing_gen (next_key turing_gen t) bs).1))
          (xor_twice b (t.key_stream (t.pos % 340)))

  pub code_twice :
      (b : Bool) (t : Turing G) (bs : List ℕ) → code b t (code b t bs).0 ≡ (bs, (code b t bs).1)
  code_twice true t bs = crypt_twice t bs
  code_twice false t bs = refl

  length-crypt_buff :
      (t : Turing G) (bs : List ℕ) → length (crypt_buff turing_gen t bs).0 ≡ length bs
  unfolding crypt_buff
  length-crypt_buff t [] = refl
  length-crypt_buff t (b ∷ bs) = ap suc (length-crypt_buff (next_key turing_gen t) bs)

  pub length-code : (b : Bool) (t : Turing G) (bs : List ℕ) → length (code b t bs).0 ≡ length bs
  length-code true t bs = length-crypt_buff t bs
  length-code false t bs = refl
