-- ===== src/Utils/Tokens/Bootstrap.antt =====
-- A generated bootstrap token is one that `ParseToken` accepts.
use sprintframework.Common.{
  false, some, List, [], ◌∷◌, ◌≡◌, sym, length, arith, All, Bool-cases, inl, inr,
}
use sprintframework.Common.{Bytes, codes, nat_eq, Result, ok, err}
use sprintframework.Strings.{contains_any}
use sprintframework.Utils.Tokens.{
  Encoding, IsEncoding, default_token_size, generate_token, parse_token,
}

-- A read that filled the buffer, or failed.
abbrev pub IsRead : {E : Type 0} → Result E Bytes → Type 0
IsRead (ok nonce) = length nonce ≡ default_token_size
IsRead (err e) = Unit {0}

module _ (C : Encoding) (L : IsEncoding C) where
  parse_token_encode :
      (nonce : Bytes)
      → length nonce ≡ default_token_size
      → parse_token C (C.encode nonce) ≡ ok nonce
  unfolding parse_token
  parse_token_encode nonce n = ground (arith, L.decode-encode nonce)

  -- A generated token holds no `-` and no `_`, and `ParseToken` takes it back to 32 bytes.
  pub parse-generate_token :
      {E : Type 0} (reads : List (Result E Bytes)) {token : Bytes}
      → All IsRead reads
      → generate_token C reads ≡ some (ok token)
      → (contains_any token (codes "-_") ≡ false)
        × ((key : Bytes) × (parse_token C token ≡ ok key) × (length key ≡ default_token_size))
  unfolding generate_token
  parse-generate_token [] a h = absurd (ground arith)
  parse-generate_token (err e ∷ reads) a h = absurd (ground arith)
  parse-generate_token (ok nonce ∷ reads) {token} (n, a) h =
      elim (Bool-cases (contains_any (C.encode nonce) (codes "-_"))) [
        | inl e ↦ parse-generate_token reads a (rw e at h)
        | inr e ↦
            let same : C.encode nonce ≡ token = ground arith in
            rw (sym same) (e, (nonce, parse_token_encode nonce n, n))
      ]
