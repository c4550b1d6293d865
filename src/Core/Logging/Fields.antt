-- ===== src/Core/Logging/Fields.antt =====
-- What the fields of a message are.
use sprintframework.Common.{ℕ, zero, suc, ◌+◌, ◌-◌, ◌≤◌, ◌≡◌, ◌≢◌, refl, sym, ap, ◌∙◌, arith}
use sprintframework.Common.{Option, some, List, [], ◌∷◌, ◌++◌}
use sprintframework.Common.{Bytes, nat_eq, bytes_eq, length, take, drop}
use sprintframework.Common.{length-append, drop-append}
use mathlib.Core.Path.{subst}
use sprintframework.Core.Logging.{Arg, text, item_fields, pair_fields, field_loop, to_zap_fields}

module _ {A : Type 0} where
  -- The arguments of pairs, the last pair given first.
  abbrev pub flat : List (Bytes × Arg A) → List (Arg A)
  flat [] = []
  flat ((k, v) ∷ ps) = flat ps ++ (text k ∷ v ∷ [])

  -- The items of one round.
  abbrev window : ℕ → List (Arg A) → List (Arg A)
  window i args = take (i - (i - 2)) (drop (i - 2) args)

  take-drop-append :
      (m n : ℕ) (xs ys : List (Arg A))
      → m + n ≤ length xs
      → take n (drop m (xs ++ ys)) ≡ take n (drop m xs)
  take-drop-append zero zero xs ys h = refl
  take-drop-append zero (suc n) [] ys h = absurd (omega (arith, h))
  take-drop-append zero (suc n) (x ∷ xs) ys h =
      ap (λ zs. x ∷ zs) (take-drop-append zero n xs ys (omega (arith, h)))
  take-drop-append (suc m) n [] ys h = absurd (omega (arith, h))
  take-drop-append (suc m) n (x ∷ xs) ys h = take-drop-append m n xs ys (omega (arith, h))

  field_loop-zero : (fuel : ℕ) (args : List (Arg A)) → field_loop fuel 0 args ≡ some []
  unfolding field_loop nat_eq
  field_loop-zero zero args = refl
  field_loop-zero (suc fuel) args = ground arith

  field_loop-suc :
      (fuel i : ℕ) (args : List (Arg A)) (fields : List (Bytes × Arg A))
      → i ≢ 0
      → field_loop fuel (i - 2) args ≡ some fields
      → field_loop (suc fuel) i args ≡ some (item_fields (i - 2) i (window i args) ++ fields)
  unfolding field_loop
  field_loop-suc fuel i args fields h e = ground (arith, h, e)

  field_loop-total :
      (fuel i : ℕ) (args : List (Arg A))
      → i ≤ fuel
      → (fields : List (Bytes × Arg A)) × (field_loop fuel i args ≡ some fields)
  field_loop-total fuel zero args h = ([], field_loop-zero fuel args)
  field_loop-total zero (suc i) args h = absurd (omega (arith, h))
  field_loop-total (suc fuel) (suc i) args h =
      let (fields, e) = field_loop-total fuel (suc i - 2) args (omega (arith, h)) in
      (
        item_fields (suc i - 2) (suc i) (window (suc i) args) ++ fields,
        field_loop-suc fuel (suc i) args fields (λ z. absurd (omega (arith, z))) e,
      )

  -- More fuel and arguments behind the index change nothing.
  field_loop-more :
      (fuel i : ℕ) (xs ys : List (Arg A)) (fields : List (Bytes × Arg A))
      → i ≤ length xs
      → i ≤ fuel
      → field_loop fuel i xs ≡ some fields
      → field_loop (suc fuel) i (xs ++ ys) ≡ some fields
  field_loop-more fuel zero xs ys fields h f e =
      field_loop-zero (suc fuel) (xs ++ ys) ∙ sym (field_loop-zero fuel xs) ∙ e
  field_loop-more zero (suc i) xs ys fields h f e = absurd (omega (arith, f))
  field_loop-more (suc fuel) (suc i) xs ys fields h f e =
      let (rest, r) = field_loop-total fuel (suc i - 2) xs (omega (arith, f)) in
      let ne = λ (z : suc i ≡ 0). absurd (omega (arith, z)) in
      field_loop-suc (suc fuel) (suc i) (xs ++ ys) rest ne
        (field_loop-more fuel (suc i - 2) xs ys rest (omega (arith, h)) (omega (arith, f)) r)
      ∙ ap (λ w. some (item_fields (suc i - 2) (suc i) w ++ rest))
          (take-drop-append (suc i - 2) (suc i - (suc i - 2)) xs ys (omega (arith, h)))
      ∙ sym (field_loop-suc fuel (suc i) xs rest ne r)
      ∙ e

  window-pair :
      (xs : List (Arg A)) (a b : Arg A)
      → window (suc (suc (length xs))) (xs ++ (a ∷ b ∷ [])) ≡ a ∷ b ∷ []
  window-pair xs a b =
      let n = length xs in
      let cut : suc (suc n) - 2 ≡ n = omega arith in
      let two : suc (suc n) - n ≡ 2 = omega arith in
      ap (λ m. take (suc (suc n) - m) (drop m (xs ++ (a ∷ b ∷ [])))) cut
      ∙ ap (λ m. take m (drop n (xs ++ (a ∷ b ∷ [])))) two
      ∙ ap (take 2) (drop-append xs (a ∷ b ∷ []))

  pair_named :
      (left i : ℕ) (k : Bytes) (v : Arg A) (ps : List (Bytes × Arg A))
      → ◌≡◌ {A = Option (List (Bytes × Arg A))}
          (some (item_fields left i (text k ∷ v ∷ []) ++ ps))
          (some ((k, v) ∷ ps))
  unfolding item_fields pair_fields
  pair_named left i k v ps = refl

  to_zap_fields-flat : (ps : List (Bytes × Arg A)) → to_zap_fields (flat ps) ≡ some ps
  unfolding to_zap_fields
  to_zap_fields-flat [] = field_loop-zero 0 []
  to_zap_fields-flat ((k, v) ∷ ps) =
      let xs = flat ps in
      let n = length xs in
      let two = text k ∷ v ∷ [] in
      let cut : n ≡ suc (suc n) - 2 = omega arith in
      let size : length (xs ++ two) ≡ suc (suc n) = length-append xs two ∙ omega arith in
      let rest : field_loop (suc n) (suc (suc n) - 2) (xs ++ two) ≡ some ps =
        subst (λ m. field_loop (suc n) m (xs ++ two) ≡ some ps) cut
          (field_loop-more n n xs two ps (omega arith) (omega arith) (to_zap_fields-flat ps)) in
      ap (λ m. field_loop m m (xs ++ two)) size
      ∙ field_loop-suc (suc n) (suc (suc n)) (xs ++ two) ps (λ z. absurd (omega (arith, z))) rest
      ∙ ap (λ w. some (item_fields (suc (suc n) - 2) (suc (suc n)) w ++ ps))
          (window-pair xs (text k) v)
      ∙ pair_named (suc (suc n) - 2) (suc (suc n)) k v ps

  -- The loop over the arguments ends with enough fuel, whatever the arguments are. Those of pairs
  -- of a key and a value become the fields of these pairs, the last pair first.
  pub to_zap_fields_lem :
      (args : List (Arg A)) (ps : List (Bytes × Arg A))
      → ((fields : List (Bytes × Arg A)) × (to_zap_fields args ≡ some fields))
        × (to_zap_fields (flat ps) ≡ some ps)
  unfolding to_zap_fields
  to_zap_fields_lem args ps =
      (field_loop-total (length args) (length args) args (omega arith), to_zap_fields-flat ps)
