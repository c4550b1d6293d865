-- ===== src/Core/NodeService/Interleaving.antt =====
-- Calls of `Issue` that interleave: the reset of the clock is an operation of its own behind the
-- exchange of the time stamp, and the increments around it give the same clock sequence twice.
use sprintframework.Common.{ℕ, List, [], ◌∷◌, ◌≡◌, ◌≢◌, refl}
use sprintframework.Common.{nat_eq, ==_self, ==_of_ne}
use sprintframework.Core.NodeService.{Issuer, Sequences, Call, looking, issued, advance}

-- Three calls that share the two fields.
pub record Calls : Type 0 where
  pub first : Call
  pub second : Call
  pub third : Call
  pub issuer : Issuer

pub data Which : Type 0 where
  first second third : Which

-- One of the calls does its next operation.
pub move : Sequences → ℕ → Which → Calls → Calls
move U now first w =
    let (c, s) = advance U now w.first w.issuer in record w { first = c; issuer = s }
move U now second w =
    let (c, s) = advance U now w.second w.issuer in record w { second = c; issuer = s }
move U now third w =
    let (c, s) = advance U now w.third w.issuer in record w { third = c; issuer = s }

pub moves : Sequences → ℕ → List Which → Calls → Calls
moves U now [] w = w
moves U now (i ∷ more) w = moves U now more (move U now i w)

-- The first call has exchanged the time stamp when the second counts; the third counts behind
-- the first call's reset.
abbrev pub overtaken : List Which
overtaken = first ∷ first ∷ second ∷ second ∷ first ∷ third ∷ third ∷ []

-- Whenever three calls start in the same tick behind the last time stamp and the clock stands at
-- 0, there is an order of their atomic operations, `overtaken`, in which all return and two of
-- them with the same time stamp and clock sequence, whatever an id keeps of a clock sequence.
pub issued_twice :
    (U : Sequences) (last now : ℕ)
    → last ≢ now
    → let w = moves U now overtaken (record {
      first = looking now;
      second = looking now;
      third = looking now;
      issuer = record { last_timestamp = last; clock = 0 };
    }) in
      (w.first ≡ issued now U.new)
      × ((w.second ≡ issued now (U.kept 1)) × (w.third ≡ issued now (U.kept 1)))
unfolding moves move advance
issued_twice U last now ne =
    rw (==_of_ne last now ne, ==_self last)
      (rw (==_self now) (rw (==_self now) (refl, (refl, refl))))
