-- ===== src/Workloads/Suggest/Laws.antt =====
-- Which candidate is suggested.
use virtwork.Base.{
  ℕ, ◌+◌, ◌/◌, ◌≤◌, ◌<◌, ◌≡◌, refl, sym, subst, ◌⊎◌, inl, inr, String, List, [], ◌∷◌, some, arith,
  ltb, Bool-cases, length, In, All, All-map_of,
}
use virtwork.Base.Text.Bytes.{bytes}
use virtwork.Workloads.Distance.Edits.{Edit}
use virtwork.Workloads.Distance.Laws.{levenshtein_least}
use virtwork.Workloads.Suggest.{closest_from, closest_match}

-- At most `n` single-byte edits turn one text into the other.
abbrev pub Within : String → String → ℕ → Type 0
Within s t n = (k : ℕ) × Edit (bytes s) (bytes t) k × (k ≤ n)

-- The answer is empty, and no candidate is within half of the input's length; or it is a candidate
-- within that distance, and no candidate is nearer to the input.
abbrev pub IsClosest : String → List String → String → Type 0
IsClosest input candidates best =
    ((best ≡ "") × All (λ c. ¬ Within input c (length (bytes input) / 2)) candidates)
    ⊎ (In best candidates
        × Within input best (length (bytes input) / 2)
        × All (λ c. (n : ℕ) → Within input c n → Within input best n) candidates)

module _ (input : String) where
  -- the result of the loop over `cs` from `best` at distance less than `limit`
  abbrev Chosen : String → ℕ → List String → String → Type 0
  Chosen best limit cs s =
      ((s ≡ best) × All (λ c. (n : ℕ) → Within input c n → limit ≤ n) cs)
      ⊎ ((d : ℕ) × In s cs
          × Edit (bytes input) (bytes s) d
          × (d < limit)
          × All (λ c. (n : ℕ) → Within input c n → d ≤ n) cs)

  IsClosest-of_Chosen :
      (cs : List String) (s : String)
      → Chosen "" (length (bytes input) / 2 + 1) cs s
      → IsClosest input cs s
  IsClosest-of_Chosen cs s (inl (at, rest)) =
      inl (
        at,
        All-map_of cs (λ c far w. absurd (omega (arith, far (length (bytes input) / 2) w))) rest,
      )
  IsClosest-of_Chosen cs s (inr (d, member, script, small, rest)) =
      inr (member, (d, script, omega arith), All-map_of cs (λ c far n w. (d, script, far n w)) rest)

  -- The candidate `c`, at distance `d`, comes before the others.
  module _ (c : String) (d : ℕ) (e : Edit (bytes input) (bytes c) d)
      (least : (k : ℕ) → Edit (bytes input) (bytes c) k → d ≤ k) where
    le_of_Within : (m n : ℕ) → m ≤ d → Within input c n → m ≤ n
    le_of_Within m n h (k, script, small) = omega (arith, least k script)

    Chosen-closer :
        (best : String) (limit : ℕ) (cs : List String) (s : String)
        → d < limit
        → Chosen c d cs s
        → Chosen best limit (c ∷ cs) s
    Chosen-closer best limit cs s h (inl (at, rest)) = inr (
      d,
      inl at,
      subst (λ t. Edit (bytes input) (bytes t) d) (sym at) e,
      h,
      ((λ n w. le_of_Within d n (omega arith) w), rest),
    )
    Chosen-closer best limit cs s h (inr (m, member, script, small, rest)) =
        inr (m, inr member, script, omega arith, ((λ n w. le_of_Within m n (omega arith) w), rest))

    Chosen-skip :
        (best : String) (limit : ℕ) (cs : List String) (s : String)
        → limit ≤ d
        → Chosen best limit cs s
        → Chosen best limit (c ∷ cs) s
    Chosen-skip best limit cs s h (inl (at, rest)) =
        inl (at, ((λ n w. le_of_Within limit n h w), rest))
    Chosen-skip best limit cs s h (inr (m, member, script, small, rest)) =
        inr (m, inr member, script, small, ((λ n w. le_of_Within m n (omega arith) w), rest))

  closest_from-Chosen :
      (cs : List String) (best : String) (limit : ℕ)
      → (s : String) × (closest_from input best limit cs ≡ some s) × Chosen best limit cs s
  unfolding closest_from
  closest_from-Chosen [] best limit = (best, refl, inl (refl, tt))
  closest_from-Chosen (c ∷ cs) best limit =
      let (d, found, e, least) = levenshtein_least (bytes input) (bytes c) in
      elim (Bool-cases (ltb d limit)) [
        | inl closer ↦
            let (s, run, chosen) = closest_from-Chosen cs c d in
            (
              s,
              rw (found, closer) run,
              Chosen-closer c d e least best limit cs s (ground arith) chosen,
            )
        | inr other ↦
            let (s, run, chosen) = closest_from-Chosen cs best limit in
            (
              s,
              rw (found, other) run,
              Chosen-skip c d e least best limit cs s (ground arith) chosen,
            )
      ]

-- `closestMatch` returns a text for every input. It is "" where no candidate is within half of the
-- input's length in single-byte edits; else it is a candidate within that distance, and no other
-- candidate is nearer.
pub closest_match-IsClosest :
    (input : String) (candidates : List String)
    → (best : String) × (closest_match input candidates ≡ some best)
      × IsClosest input candidates best
unfolding closest_match
closest_match-IsClosest input candidates =
    let limit = length (bytes input) / 2 + 1 in
    let (s, run, chosen) = closest_from-Chosen input candidates "" limit in
    (s, run, IsClosest-of_Chosen input candidates s chosen)
