-- ===== src/Core/NodeService/Issuing.antt =====
-- Calls of `Issue` one after the other.
use sprintframework.Common.{ℕ, suc, ◌+◌, ◌%◌, ◌^◌, ◌<◌, ◌≤◌, List, [], ◌∷◌, ◌≡◌, ◌≢◌, ◌⊎◌, arith}
use sprintframework.Common.{◌==◌, nat_eq, if◌then◌else◌, inl, inr, Bool-cases, All, length, ==_self}
use sprintframework.Common.{ap, refl, map, ◌∙◌}
use sprintframework.Core.NodeService.{Call, Issuer, Sequences, looking, issued, advance, run_call}

-- The id of a call that is alone, by its time stamp and the count that it gets in it; the first
-- one counts 0.
abbrev pub stamp_of : ℕ → Issuer → ℕ × ℕ
stamp_of curr s = (curr, if s.last_timestamp == curr then (s.clock + 1) % 2 ^ 32 else 0)

abbrev pub after : ℕ → Issuer → Issuer
after curr s =
    if s.last_timestamp == curr
    then record s { clock = (s.clock + 1) % 2 ^ 32 }
    else record { last_timestamp = curr; clock = 0 }

-- The stamps of calls at these clock readings, one after the other.
abbrev pub stamps : List ℕ → Issuer → List (ℕ × ℕ)
stamps [] s = []
stamps (r ∷ rs) s = stamp_of r s ∷ stamps rs (after r s)

-- Readings of a clock that never goes back behind `from`.
abbrev pub IsSteady : ℕ → List ℕ → Type 0
IsSteady from [] = Unit
IsSteady from (r ∷ rs) = (from ≤ r) × IsSteady r rs

abbrev pub AllDistinct {ℓ} : {A : Type ℓ} → List A → Type ℓ
AllDistinct [] = Unit
AllDistinct (x ∷ xs) = All (λ y. x ≢ y) xs × AllDistinct xs

-- The counts that a clock sequence tells apart.
abbrev pub sequence_bits : ℕ
sequence_bits = 14

-- What can still be issued: a later stamp, or the same with a higher count.
abbrev IsLater : Issuer → ℕ × ℕ → Type 0
IsLater s (c, k) =
    (k < 2 ^ sequence_bits) × ((s.last_timestamp < c) ⊎ ((c ≡ s.last_timestamp) × (s.clock < k)))

stamp_of-IsLater :
    (r : ℕ) (s : Issuer)
    → s.last_timestamp ≤ r
    → s.clock + 1 < 2 ^ sequence_bits
    → IsLater s (stamp_of r s)
stamp_of-IsLater r s h b = ground arith

IsLater-after :
    (r : ℕ) (s : Issuer) (x : ℕ × ℕ)
    → s.last_timestamp ≤ r
    → s.clock + 1 < 2 ^ sequence_bits
    → IsLater (after r s) x
    → IsLater s x
IsLater-after r s (c, k) h b l = ground arith

stamp_of-ne :
    (r : ℕ) (s : Issuer) (x : ℕ × ℕ)
    → s.clock + 1 < 2 ^ sequence_bits
    → IsLater (after r s) x
    → stamp_of r s ≢ x
stamp_of-ne r s (c, k) b l e = ground arith

stamp_of-bound :
    (r : ℕ) (s : Issuer) → s.clock + 1 < 2 ^ sequence_bits → (stamp_of r s).1 < 2 ^ sequence_bits
stamp_of-bound r s b = ground arith

after-IsSteady :
    (r : ℕ) (rs : List ℕ) (s : Issuer) → IsSteady r rs → IsSteady (after r s).last_timestamp rs
after-IsSteady r [] s h = tt
after-IsSteady r (q ∷ rs) s (h, hs) = (ground arith, hs)

clock-after-le :
    (r : ℕ) (s : Issuer) → s.clock + 1 < 2 ^ sequence_bits → (after r s).clock ≤ s.clock + 1
clock-after-le r s b = ground arith

bound_after :
    (r n : ℕ) (s : Issuer)
    → s.clock + suc n < 2 ^ sequence_bits
    → (after r s).clock + n < 2 ^ sequence_bits
bound_after r n s b = let le = clock-after-le r s (omega arith) in omega arith

All-imp :
    {A : Type 0} (P Q : A → Type 0) → ((x : A) → P x → Q x) → (xs : List A) → All P xs → All Q xs
All-imp P Q f [] h = tt
All-imp P Q f (x ∷ xs) (h, hs) = (f x h, All-imp P Q f xs hs)

stamps-IsLater :
    (rs : List ℕ) (s : Issuer)
    → IsSteady s.last_timestamp rs
    → s.clock + length rs < 2 ^ sequence_bits
    → All (IsLater s) (stamps rs s)
stamps-IsLater [] s h b = tt
stamps-IsLater (r ∷ rs) s (h, hs) b = (
  stamp_of-IsLater r s h (omega arith),
  All-imp (IsLater (after r s)) (IsLater s) (λ x. IsLater-after r s x h (omega arith))
      (stamps rs (after r s))
      (stamps-IsLater rs (after r s) (after-IsSteady r rs s hs) (bound_after r (length rs) s b)),
)

stamps-AllDistinct :
    (rs : List ℕ) (s : Issuer)
    → IsSteady s.last_timestamp rs
    → s.clock + length rs < 2 ^ sequence_bits
    → AllDistinct (stamps rs s)
stamps-AllDistinct [] s h b = tt
stamps-AllDistinct (r ∷ rs) s (h, hs) b = (
  All-imp (IsLater (after r s)) (λ y. stamp_of r s ≢ y) (λ x. stamp_of-ne r s x (omega arith))
      (stamps rs (after r s))
      (stamps-IsLater rs (after r s) (after-IsSteady r rs s hs) (bound_after r (length rs) s b)),
  stamps-AllDistinct rs (after r s) (after-IsSteady r rs s hs) (bound_after r (length rs) s b),
)

stamps-bound :
    (rs : List ℕ) (s : Issuer)
    → IsSteady s.last_timestamp rs
    → s.clock + length rs < 2 ^ sequence_bits
    → All (λ (c, k). k < 2 ^ sequence_bits) (stamps rs s)
stamps-bound [] s h b = tt
stamps-bound (r ∷ rs) s (h, hs) b = (
  stamp_of-bound r s (omega arith),
  stamps-bound rs (after r s) (after-IsSteady r rs s hs) (bound_after r (length rs) s b),
)

-- An id tells this many counts apart, and a new one has the sequence of the count 0.
pub record HasSequenceBits (U : Sequences) : Type 0 where
  pub new_zero : U.new ≡ U.kept 0
  pub apart :
      (m n : ℕ) → m < 2 ^ sequence_bits → n < 2 ^ sequence_bits → U.kept m ≡ U.kept n → m ≡ n

module _ (U : Sequences) where
  -- A stamp as it stands in an id.
  abbrev pub in_id : ℕ × ℕ → ℕ × ℕ
  in_id (curr, count) = (curr, U.kept count)

  -- A call that is alone returns after at most three operations, whatever the clock shows
  -- meanwhile.
  run_call_alone :
      (curr a b c : ℕ) (s : Issuer)
      → U.new ≡ U.kept 0
      → run_call U (a ∷ b ∷ c ∷ []) (looking curr) s
        ≡ (issued curr (U.kept (stamp_of curr s).1), after curr s)
  unfolding run_call advance
  run_call_alone curr a b c s z = elim (Bool-cases (s.last_timestamp == curr)) [
    | inl e ↦ rw e
    | inr e ↦ rw (e, ==_self s.last_timestamp) (rw z refl)
  ]

  -- Calls at these readings, one after the other, each with the three operations it may need.
  pub issue_all : List ℕ → Issuer → List Call
  issue_all [] s = []
  issue_all (r ∷ rs) s =
      let (c, t) = run_call U (r ∷ r ∷ r ∷ []) (looking r) s in c ∷ issue_all rs t

  abbrev pub each_issued : List (ℕ × ℕ) → List Call
  each_issued [] = []
  each_issued ((curr, sequence) ∷ xs) = issued curr sequence ∷ each_issued xs

  issue_all-stamps :
      (rs : List ℕ) (s : Issuer)
      → U.new ≡ U.kept 0
      → issue_all rs s ≡ each_issued (map in_id (stamps rs s))
  unfolding issue_all
  issue_all-stamps [] s z = refl
  issue_all-stamps (r ∷ rs) s z =
      rw (run_call_alone r r r r s z)
        (ap (λ l. issued r (U.kept (stamp_of r s).1) ∷ l) (issue_all-stamps rs (after r s) z))

  in_id-ne :
      HasSequenceBits U
      → (x y : ℕ × ℕ) → x.1 < 2 ^ sequence_bits
      → y.1 < 2 ^ sequence_bits
      → x ≢ y
      → in_id x ≢ in_id y
  in_id-ne H (c, m) (d, n) hm hn ne e =
      let same = H.apart m n hm hn (ap (λ p. p.1) e) in
      let curr : c ≡ d = ap (λ p. p.0) e in ne (ap (λ p. (p, m)) curr ∙ ap (λ k. (d, k)) same)

  in_id-All :
      HasSequenceBits U
      → (x : ℕ × ℕ) (ys : List (ℕ × ℕ)) → x.1 < 2 ^ sequence_bits
      → All (λ (c, k). k < 2 ^ sequence_bits) ys
      → All (λ y. x ≢ y) ys
      → All (λ y. in_id x ≢ y) (map in_id ys)
  in_id-All H x [] hx hs h = tt
  in_id-All H x (y ∷ ys) hx (hy, hs) (ne, h) = (in_id-ne H x y hx hy ne, in_id-All H x ys hx hs h)

  in_id-AllDistinct :
      HasSequenceBits U
      → (xs : List (ℕ × ℕ)) → All (λ (c, k). k < 2 ^ sequence_bits) xs
      → AllDistinct xs
      → AllDistinct (map in_id xs)
  in_id-AllDistinct H [] hs h = tt
  in_id-AllDistinct H (x ∷ xs) (hx, hs) (ne, h) =
      (in_id-All H x xs hx hs ne, in_id-AllDistinct H xs hs h)

  -- Where an id tells clock sequences of 14 bits apart and a new one has the sequence 0, calls of
  -- `Issue` that do not overlap all return, each after at most three atomic operations, with these
  -- time stamps and clock sequences. As long as the clock does not go back and the counter with
  -- the number of the calls is below 2 ^ 14, no two of them get the same time stamp and clock
  -- sequence.
  pub issue_all-AllDistinct :
      (rs : List ℕ) (s : Issuer)
      → HasSequenceBits U
      → IsSteady s.last_timestamp rs
      → s.clock + length rs < 2 ^ sequence_bits
      → (issue_all rs s ≡ each_issued (map in_id (stamps rs s)))
        × AllDistinct (map in_id (stamps rs s))
  issue_all-AllDistinct rs s H h b = (
    issue_all-stamps rs s H.new_zero,
    in_id-AllDistinct H (stamps rs s) (stamps-bound rs s h b) (stamps-AllDistinct rs s h b),
  )
