-- ===== src/Base/Strings/Trim.antt =====
-- `trim` removes all the white space that it ever will.
use mathlib.Core.Path.{◌≡◌, refl, sym, ap, ◌∙◌, subst}
use mathlib.Core.Logic.{inl, inr}
use mathlib.Core.Bool.{false}
use mathlib.Core.List.{[], ◌∷◌, ◌++◌, reverse, reverse-append, reverse-cons, reverse-reverse}
use Prim.Native.Nat.{◌≤◌}
use native.Mathlib.Omega.{arith}
use package.sentriqora.Base.Tests.{Bool-cases}
use package.sentriqora.Base.Lists.{length, length-append}
use package.sentriqora.Base.Strings.{Text, is_space, trim_start, trim}

-- No white space at the front.
abbrev IsFlush : Text → Type 0
IsFlush [] = Unit {0}
IsFlush (c ∷ s) = is_space c ≡ false

trim_start-IsFlush : (s : Text) → IsFlush (trim_start s)
unfolding trim_start
trim_start-IsFlush [] = tt
trim_start-IsFlush (c ∷ s) = elim (Bool-cases (is_space c)) [
  | inl space ↦ rw space (trim_start-IsFlush s)
  | inr plain ↦ rw plain plain
]

trim_start_of_IsFlush : (s : Text) → IsFlush s → trim_start s ≡ s
unfolding trim_start
trim_start_of_IsFlush [] h = refl
trim_start_of_IsFlush (c ∷ s) h = rw h

-- What `trim_start` leaves is what stands behind the part that it removes.
trim_start_suffix : (s : Text) → (front : Text) × (s ≡ front ++ trim_start s)
unfolding trim_start
trim_start_suffix [] = ([], refl)
trim_start_suffix (c ∷ s) = elim (Bool-cases (is_space c)) [
  | inl space ↦
      (let (front, same) = trim_start_suffix s in (c ∷ front, rw space (ap (λ t. c ∷ t) same)))
  | inr plain ↦ ([], rw plain)
]

IsFlush-prefix : (s t : Text) → IsFlush (s ++ t) → IsFlush s
IsFlush-prefix [] t h = tt
IsFlush-prefix (c ∷ s) t h = h

pub trim_idempotent : (s : Text) → trim (trim s) ≡ trim s
unfolding trim
trim_idempotent s =
    let u = trim_start s in
    let w = trim_start (reverse u) in
    let (front, split) = trim_start_suffix (reverse u) in
    let joined : u ≡ reverse w ++ reverse front =
      sym (reverse-reverse u) ∙ (ap reverse split ∙ reverse-append front w) in
    let flush : IsFlush (reverse w) =
      IsFlush-prefix (reverse w) (reverse front) (subst IsFlush joined (trim_start-IsFlush s)) in
    ap (λ t. reverse (trim_start (reverse t))) (trim_start_of_IsFlush (reverse w) flush)
    ∙ (ap (λ t. reverse (trim_start t)) (reverse-reverse w)
        ∙ ap reverse (trim_start_of_IsFlush w (trim_start-IsFlush (reverse u))))

length-trim_start : (s : Text) → length (trim_start s) ≤ length s
unfolding trim_start
length-trim_start [] = omega arith
length-trim_start (c ∷ s) = (let rest = length-trim_start s in ground (arith, rest))

length-reverse : (s : Text) → length (reverse s) ≡ length s
length-reverse [] = refl
length-reverse (c ∷ s) =
    ap length (reverse-cons c s)
    ∙ omega (arith, length-append (reverse s) (c ∷ []), length-reverse s)

pub length-trim : (s : Text) → length (trim s) ≤ length s
unfolding trim
length-trim s = omega (
  arith,
  length-reverse (trim_start (reverse (trim_start s))),
  length-trim_start (reverse (trim_start s)),
  length-reverse (trim_start s),
  length-trim_start s,
)
