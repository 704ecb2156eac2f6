-- ===== src/Knowledge/Chunks/Laws.antt =====
-- The loop ends, and its chunks are numbered, short and few.
use sentriqora.Base.{
  subst, trim, ◌⊎◌, Bool-cases, inl, inr, ℕ, zero, suc, ◌+◌, ◌-◌, ◌≤◌, ◌<◌, ◌≡◌, refl, sym, Bool,
  true, false, Option, none, some, List, [], ◌∷◌, Text, length, length-take-le, drop, leb, ltb,
  arith, ◌&&◌, not, if◌then◌else◌, ◌==◌, min, length-trim,
}
use sentriqora.Knowledge.Chunks.{
  Chunk, slice, unless, chunk_end, next_start, push, chunks_from, target_characters, last_newline,
  at_boundary,
}

-- The loop without fuel: from a start on and with `n` chunks made, it ends with these chunks. It has
-- no rule for a loop that goes on for ever.
pub data Loop (t : Text) : (start n : ℕ) → List Chunk → Type 0 where
  over : {start n : ℕ} → (length t ≤ start) ⊎ (200 ≤ n) → Loop t start n []
  last :
      {start n : ℕ}
      → start < length t
      → n < 200
      → length t ≤ chunk_end t start
      → Loop t start n (push n (trim (slice start (chunk_end t start) t)) (λ _. []))
  round :
      {start n : ℕ} (rest : ℕ → List Chunk)
      → start < length t
      → n < 200
      → chunk_end t start < length t
      → ((m : ℕ) → Loop t (next_start start (chunk_end t start)) m (rest m))
      → Loop t start n (push n (trim (slice start (chunk_end t start) t)) rest)

module _ (t : Text) where
  over_cases :
      (start n : ℕ)
      → not (ltb start (length t) && ltb n 200) ≡ true
      → (length t ≤ start) ⊎ (200 ≤ n)
  over_cases start n h = elim (Bool-cases (ltb n 200)) [
    | inl few ↦ inl (ground (arith, h, few))
    | inr many ↦ inr (ground (arith, many))
  ]

  going_cases :
      (start n : ℕ)
      → not (ltb start (length t) && ltb n 200) ≡ false
      → (start < length t) × (n < 200)
  going_cases start n h = (ground (arith, h), ground (arith, h))

  next_lem :
      (start end fuel : ℕ) → length t ≤ suc fuel + start → length t ≤ fuel + next_start start end
  next_lem start end fuel h = ground (arith, h)

  unless-true : (b : Bool) (xs : List Chunk) → b ≡ true → unless b xs ≡ []
  unfolding unless
  unless-true true xs h = refl
  unless-true false xs h = absurd (cc)

  unless-false : (b : Bool) (xs : List Chunk) → b ≡ false → unless b xs ≡ xs
  unfolding unless
  unless-false true xs h = absurd (cc)
  unless-false false xs h = refl

  -- With as much fuel as the rest of the text is long, the loop ends, and with these chunks.
  pub enough_fuel :
      (fuel start n : ℕ) → length t ≤ fuel + start → Loop t start n (chunks_from fuel t start n)
  unfolding chunks_from
  enough_fuel zero start n h = over (inl (omega (arith, h)))
  enough_fuel (suc fuel) start n h = elim (Bool-cases (not (ltb start (length t) && ltb n 200))) [
    | inl ended ↦
        subst (Loop t start n) (sym (unless-true _ _ ended)) (over (over_cases start n ended))
    | inr going ↦
        (let (more, few) = going_cases start n going in
          subst (Loop t start n) (sym (unless-false _ _ going))
            (elim (Bool-cases (leb (length t) (chunk_end t start))) [
              | inl final ↦
                  subst (λ f. Loop t start n (push n (trim (slice start (chunk_end t start) t)) f))
                    (λ i m.
                      sym
                        (unless-true _ (chunks_from fuel t (next_start start (chunk_end t start)) m)
                          final)
                        i)
                    (last more few (ground (arith, final)))
              | inr further ↦
                  subst (λ f. Loop t start n (push n (trim (slice start (chunk_end t start) t)) f))
                    (λ i m.
                      sym
                        (unless-false _
                          (chunks_from fuel t (next_start start (chunk_end t start)) m) further)
                        i)
                    (round (chunks_from fuel t (next_start start (chunk_end t start))) more few
                      (ground (arith, further))
                      (λ m.
                        enough_fuel fuel (next_start start (chunk_end t start)) m
                          (next_lem start (chunk_end t start) fuel h)))
            ]))
  ]

newline-le :
    (limit index : ℕ) (rest : Option ℕ) (c found : ℕ)
    → ((later : ℕ) → rest ≡ some later → later ≤ limit)
    → ◌≡◌ {A = Option ℕ}
        (elim rest [
          | some later ↦ some later
          | none ↦ if c == 10 && leb index limit then some index else none
        ])
        (some found)
    → found ≤ limit
newline-le limit index (some later) c found h same = h found same
newline-le limit index none c found h same = ground (arith, same)

last_newline_le :
    (index limit : ℕ) (t : Text) (found : ℕ)
    → last_newline index limit t ≡ some found
    → found ≤ limit
unfolding last_newline
last_newline_le index limit [] found h = absurd (cc)
last_newline_le index limit (c ∷ t) found h =
    newline-le limit index (last_newline (suc index) limit t) c found
      (last_newline_le (suc index) limit t) h

at_boundary_le :
    (start end : ℕ) (o : Option ℕ)
    → ((found : ℕ) → o ≡ some found → found ≤ end)
    → at_boundary start end o ≤ end
at_boundary_le start end none h = omega arith
at_boundary_le start end (some b) h = (let le = h b refl in ground (arith, le))

end_le : (b : Bool) (x y bound : ℕ) → x ≤ bound → y ≤ bound → (if b then x else y) ≤ bound
end_le true x y bound h k = h
end_le false x y bound h k = k

min_le : (a b : ℕ) → min a b ≤ a
min_le a b = ground arith

chunk_end_le : (t : Text) (start : ℕ) → chunk_end t start ≤ start + target_characters
unfolding chunk_end
chunk_end_le t start =
    let end = min (start + target_characters) (length t) in
    let short : end ≤ start + target_characters = min_le (start + target_characters) (length t) in
    end_le (ltb end (length t)) (at_boundary start end (last_newline 0 end t)) end
      (start + target_characters)
      (omega
        (arith, at_boundary_le start end (last_newline 0 end t) (last_newline_le 0 end t), short))
      short

-- Chunks that are numbered from `n` on, none of them empty or longer than 1200, at most 200 in all.
abbrev pub IsNumbered : ℕ → List Chunk → Type 0
IsNumbered n [] = Unit {0}
IsNumbered n (c ∷ cs) =
    (c.ordinal ≡ n)
    × (n < 200)
    × (1 ≤ length c.content)
    × (length c.content ≤ target_characters)
    × IsNumbered (n + 1) cs

push-IsNumbered :
    (n : ℕ) (value : Text) (rest : ℕ → List Chunk)
    → n < 200
    → length value ≤ target_characters
    → ((m : ℕ) → IsNumbered m (rest m))
    → IsNumbered n (push n value rest)
unfolding push
push-IsNumbered n [] rest few short h = h n
push-IsNumbered n (c ∷ value) rest few short h = (refl, few, omega arith, short, h (n + 1))

unless-IsNumbered :
    (b : Bool) (n : ℕ) (cs : List Chunk)
    → (b ≡ false → IsNumbered n cs)
    → IsNumbered n (unless b cs)
unfolding unless
unless-IsNumbered true n cs h = tt
unless-IsNumbered false n cs h = h refl

few_lem : (t : Text) (start n : ℕ) → not (ltb start (length t) && ltb n 200) ≡ false → n < 200
few_lem t start n h = ground (arith, h)

-- Whatever the fuel, the chunks are numbered in a row, none is empty or longer than 1200 characters,
-- and there are at most 200 of them.
pub chunks_from-IsNumbered :
    (fuel : ℕ) (t : Text) (start n : ℕ) → IsNumbered n (chunks_from fuel t start n)
unfolding chunks_from
chunks_from-IsNumbered zero t start n = tt
chunks_from-IsNumbered (suc fuel) t start n = unless-IsNumbered _ n _ (λ going.
    push-IsNumbered n _ _ (few_lem t start n going)
      (omega (
        arith,
        length-trim (slice start (chunk_end t start) t),
        length-take-le (chunk_end t start - start) (drop start t),
        chunk_end_le t start,
      ))
      (λ m.
        unless-IsNumbered _ m _
          (λ more. chunks_from-IsNumbered fuel t (next_start start (chunk_end t start)) m)))
