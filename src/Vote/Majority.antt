-- ===== src/Vote/Majority.antt =====
-- What the vote over the copies of a value finds, and when it asks for a repair.
use ni_fat.Base.{ℕ, suc, ◌+◌, ◌*◌, ◌≤◌, ◌<◌, ◌==◌, if◌then◌else◌, false, ◌≡◌, ◌≢◌}
use ni_fat.Base.{List, [], ◌∷◌, length, replicate, zero, ◌⊎◌, inl, inr, refl, arith}
use native.Mathlib.Decide.{ℕ_discrete}
use ni_fat.Vote.{Vote, start, step, replaces, votes, needs_repair}

-- how many copies hold `x`
unfoldable pub count : ℕ → List ℕ → ℕ
count x [] = 0
count x (y ∷ ys) = if y == x then suc (count x ys) else count x ys

-- The copies that hold `x` outweigh the others by more than the vote is against `x`.
abbrev Ahead : ℕ → Vote → List ℕ → Type 0
Ahead x v l =
    ((v.value ≡ x) × (length l ≤ v.freq + 2 * count x l))
    ⊎ ((v.value ≢ x) × (length l + v.freq + 1 ≤ 2 * count x l))

Ahead-step : (x : ℕ) (v : Vote) (y : ℕ) (ys : List ℕ) → Ahead x v (y ∷ ys) → Ahead x (step v y) ys
unfolding step replaces count
Ahead-step x v y ys h = ground arith

Ahead-votes : (x : ℕ) (v : Vote) (l : List ℕ) → Ahead x v l → (votes v l).value ≡ x
unfolding votes count
Ahead-votes x v [] (inl h) = h.0
Ahead-votes x v [] (inr h) = absurd (omega arith)
Ahead-votes x v (y ∷ ys) h = Ahead-votes x (step v y) ys (Ahead-step x v y ys h)

-- A value that more than half of the copies hold wins the vote, in whatever order the copies are
-- read and whatever the candidate starts as.
pub votes-majority :
    (d x : ℕ) (l : List ℕ) → length l < 2 * count x l → (votes (start d) l).value ≡ x
unfolding start
votes-majority d x l h = Ahead-votes x (start d) l (ground arith)

mismatches-votes : (v : Vote) (l : List ℕ) → v.mismatches ≤ (votes v l).mismatches
unfolding votes step replaces
mismatches-votes v [] = omega arith
mismatches-votes v (y ∷ ys) = ground (arith, mismatches-votes (step v y) ys)

pub step_match :
    (v : Vote) (y : ℕ)
    → y ≡ v.value
    → ((step v y).value ≡ v.value)
      × ((step v y).freq ≡ v.freq + 1)
      × ((step v y).mismatches ≡ v.mismatches)
unfolding step replaces
step_match v y h = ground arith

step_mismatch :
    (v : Vote) (y : ℕ)
    → y ≢ v.value
    → ((step v y).mismatches ≡ v.mismatches + 1)
      × ((0 < v.freq) → (step v y).value ≡ v.value)
      × ((v.freq ≡ 0) → (step v y).value ≡ y)
unfolding step replaces
step_mismatch v y h = (ground arith, λ p. ground arith, λ p. ground arith)

count-cons :
    (x y : ℕ) (ys : List ℕ)
    → ((y ≡ x) → count x (y ∷ ys) ≡ suc (count x ys)) × ((y ≢ x) → count x (y ∷ ys) ≡ count x ys)
unfolding count
count-cons x y ys = (λ h. ground arith, λ h. ground arith)

-- after one mismatch, every further copy agrees with the candidate
settled :
    (v : Vote) (l : List ℕ)
    → v.mismatches ≡ 1
    → (votes v l).mismatches ≤ 1
    → (length l ≤ count v.value l) × ((votes v l).value ≡ v.value)
unfolding votes
settled v [] h k = (omega arith, refl)
settled v (y ∷ ys) h k = elim (ℕ_discrete y v.value) [
  | yes e ↦ ground (arith, step_match v y e, (count-cons v.value y ys).0 e, settled (step v y) ys)
  | no e ↦ ground (arith, step_mismatch v y e, mismatches-votes (step v y) ys)
]

-- with the candidate ahead and no mismatch so far, at most one copy differs
one_off :
    (v : Vote) (l : List ℕ)
    → v.mismatches ≡ 0
    → 0 < v.freq
    → (votes v l).mismatches ≤ 1
    → ((votes v l).value ≡ v.value) × (length l ≤ count v.value l + 1)
unfolding votes
one_off v [] h p k = (refl, omega arith)
one_off v (y ∷ ys) h p k = elim (ℕ_discrete y v.value) [
  | yes e ↦ ground (arith, step_match v y e, (count-cons v.value y ys).0 e, one_off (step v y) ys)
  | no e ↦ ground (arith, step_mismatch v y e, (count-cons v.value y ys).1 e, settled (step v y) ys)
]

-- Without a repair, all copies hold the value that the vote returns, but for at most one, and
-- then it returns the value that its candidate starts as.
pub needs_repair_complete :
    (d : ℕ) (l : List ℕ)
    → needs_repair (votes (start d) l) ≡ false
    → let r = (votes (start d) l).value in
      (length l ≤ count r l) ⊎ ((r ≡ d) × (length l ≤ count r l + 1))
unfolding votes start needs_repair
needs_repair_complete d [] h = inl (omega arith)
needs_repair_complete d (y ∷ ys) h = elim (ℕ_discrete y d) [
  | yes e ↦
      ground
        (arith, step_match (start d) y e, (count-cons d y ys).0 e, one_off (step (start d) y) ys)
  | no e ↦ ground (
    arith,
    step_mismatch (start d) y e,
    (count-cons y y ys).0 refl,
    settled (step (start d) y) ys,
  )
]

count-le-length : (x : ℕ) (l : List ℕ) → count x l ≤ length l
unfolding count
count-le-length x [] = omega arith
count-le-length x (y ∷ ys) = ground (arith, count-le-length x ys)

agreeing :
    (v : Vote) (l : List ℕ) → length l ≤ count v.value l → (votes v l).mismatches ≡ v.mismatches
unfolding votes
agreeing v [] h = refl
agreeing v (y ∷ ys) h = elim (ℕ_discrete y v.value) [
  | yes e ↦ ground (arith, step_match v y e, (count-cons v.value y ys).0 e, agreeing (step v y) ys)
  | no e ↦ absurd (ground (arith, (count-cons v.value y ys).1 e, count-le-length v.value ys))
]

pub count-replicate : (n x : ℕ) → count x (replicate n x) ≡ n
unfolding count
count-replicate zero x = refl
count-replicate (suc n) x = ground (arith, count-replicate n x)

-- Copies that all hold one value give that value, and no repair.
pub votes-unanimous :
    (d x : ℕ) (l : List ℕ)
    → l ≢ []
    → length l ≤ count x l
    → ((votes (start d) l).value ≡ x) × (needs_repair (votes (start d) l) ≡ false)
unfolding needs_repair votes start
votes-unanimous d x [] n h = absurd (n refl)
votes-unanimous d x (y ∷ ys) n h = elim (ℕ_discrete y x) [
  | no e ↦ absurd (ground (arith, (count-cons x y ys).1 e, count-le-length x ys))
  | yes e ↦ (
    votes-majority d x (y ∷ ys) (omega arith),
    elim (ℕ_discrete y d) [
      | yes q ↦
          ground (
            arith,
            step_match (start d) y q,
            (count-cons x y ys).0 e,
            agreeing (step (start d) y) ys,
          )
      | no q ↦ ground (
        arith,
        step_mismatch (start d) y q,
        (count-cons x y ys).0 e,
        agreeing (step (start d) y) ys,
      )
    ],
  )
]
