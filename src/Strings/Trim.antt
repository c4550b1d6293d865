-- ===== src/Strings/Trim.antt =====
-- A text without white space is left as it is by `trim_space`.
use sprintframework.Common.{◌≡◌, refl, ap, ◌∙◌}
use sprintframework.Common.{false, [], ◌∷◌}
use sprintframework.Common.{Bytes, nat_eq, bytes_eq, if◌then◌else◌, All}
use mathlib.Core.List.{reverse, reverse_aux}
use sprintframework.Strings.{is_space, trim_left, trim_space}

abbrev pub Dense : Bytes → Type 0
Dense = All (λ c. is_space c ≡ false)

Dense-reverse_aux : (s acc : Bytes) → Dense s → Dense acc → Dense (reverse_aux s acc)
Dense-reverse_aux [] acc h a = a
Dense-reverse_aux (c ∷ s) acc (n, h) a = Dense-reverse_aux s (c ∷ acc) h (n, a)

reverse_aux-reverse_aux : (s acc : Bytes) → reverse_aux (reverse_aux s acc) [] ≡ reverse_aux acc s
reverse_aux-reverse_aux [] acc = refl
reverse_aux-reverse_aux (c ∷ s) acc = reverse_aux-reverse_aux s (c ∷ acc)

trim_left_self : (s : Bytes) → Dense s → trim_left s ≡ s
unfolding trim_left
trim_left_self [] h = refl
trim_left_self (c ∷ s) (n, h) = rw (n, if◌then◌else◌) refl

pub trim_space_self : (s : Bytes) → Dense s → trim_space s ≡ s
unfolding trim_space
trim_space_self s h =
    ap (λ t. reverse (trim_left (reverse t))) (trim_left_self s h)
    ∙ ap reverse (trim_left_self (reverse s) (Dense-reverse_aux s [] h tt))
    ∙ reverse_aux-reverse_aux s []
