-- ===== src/Formatter/Sizes.antt =====
-- formatter/nifat32formatter.c: the loop of `_calculate_fat_size`.
use ni_fat.Base.{
  ℕ, zero, suc, ◌+◌, ◌-◌, ◌*◌, ◌/◌, ◌<◌, ◌≤◌, ◌==◌, ◌≡◌, ◌≢◌, ◌⊎◌, inl, inr, refl, sym, ap, ◌∙◌,
  arith, true, false, ==_iff, ne→==, Bool-cases, ==→ne, none, some,
}
use native.Mathlib.Nat.{le_trans, mul-le-mul_left, le-div_iff_mul-le, div-mul-le_self}
use ni_fat.Formatter.Options.{Opt}
use ni_fat.Formatter.{
  sectors_left, next_fat_size, fat_size_loop, calculate_fat_size, volume_clusters,
}

-- two sizes that each lead to the other keep the loop going for ever
pub loop-cycle :
    (o : Opt) (ts fuel x y : ℕ)
    → next_fat_size o ts x ≡ y
    → next_fat_size o ts y ≡ x
    → x ≢ y
    → fat_size_loop o ts fuel x ≡ none
unfolding fat_size_loop
loop-cycle o ts zero x y there back apart = refl
loop-cycle o ts (suc fuel) x y there back apart =
    let e : (next_fat_size o ts x == x) ≡ false = ne→== (λ e. apart (sym e ∙ there)) in
    rw (e, fat_size_loop) (rw there (loop-cycle o ts fuel y x back there (λ e. apart (sym e))))

-- a round that ends the loop, and one that does not
loop-ends :
    (o : Opt) (ts fuel x : ℕ) → next_fat_size o ts x ≡ x → fat_size_loop o ts (suc fuel) x ≡ some x
unfolding fat_size_loop
loop-ends o ts fuel x e =
    let done : (next_fat_size o ts x == x) ≡ true = (==_iff (next_fat_size o ts x) x).1 e in
    rw (done, fat_size_loop) (ap some e)

loop-goes :
    (o : Opt) (ts fuel x : ℕ)
    → next_fat_size o ts x ≢ x
    → fat_size_loop o ts (suc fuel) x ≡ fat_size_loop o ts fuel (next_fat_size o ts x)
unfolding fat_size_loop
loop-goes o ts fuel x apart = rw (ne→== apart, fat_size_loop) refl

pub loop-never :
    (o : Opt) (ts x : ℕ)
    → next_fat_size o ts x ≢ x
    → ((more : ℕ) → fat_size_loop o ts more (next_fat_size o ts x) ≡ none)
    → (more : ℕ) → fat_size_loop o ts more x ≡ none
unfolding fat_size_loop
loop-never o ts x apart never zero = refl
loop-never o ts x apart never (suc more) = loop-goes o ts more x apart ∙ never more

-- a table has as many sectors as the entries of its clusters need
abbrev pub Exact : Opt → ℕ → ℕ → Type 0
Exact o ts s = (volume_clusters o ts s * 4 ≤ s * 512) × (s * 512 < volume_clusters o ts s * 4 + 512)

div_mono : (k a b : ℕ) → 0 < k → a ≤ b → a / k ≤ b / k
div_mono k a b some_k h = (le-div_iff_mul-le some_k).1 (le_trans (div-mul-le_self a k) h)

module _ (o : Opt) (ts : ℕ) (large : 32 ≤ ts) (small : ts < 0x100000000)
    (some_sector : 0 < o.spc) where
  left-exact : (x : ℕ) → o.fc * x ≤ ts - 32 → sectors_left o ts x ≡ ts - 32 - o.fc * x
  unfolding sectors_left
  left-exact x fits = omega (arith, fits, large, small)

  -- a larger table leaves no more clusters, and needs no larger table
  next-antitone :
      (x y : ℕ) → x ≤ y → o.fc * y ≤ ts - 32 → next_fat_size o ts y ≤ next_fat_size o ts x
  unfolding next_fat_size
  next-antitone x y le fits =
      let more : o.fc * x ≤ o.fc * y = mul-le-mul_left o.fc le in
      let fewer : sectors_left o ts y ≤ sectors_left o ts x =
        omega (arith, more, fits, left-exact x (le_trans more fits), left-exact y fits) in
      let clusters = div_mono o.spc (sectors_left o ts y) (sectors_left o ts x) some_sector fewer in
      omega (arith, clusters)

  fixed-Exact : (s : ℕ) → next_fat_size o ts s ≡ s → Exact o ts s
  unfolding next_fat_size volume_clusters
  fixed-Exact s fixed = omega (arith, fixed)

  module _ (fits : o.fc * next_fat_size o ts 0 ≤ ts - 32) where
    -- the sizes that occur
    top : ℕ
    top = next_fat_size o ts 0

    below : (x : ℕ) → x ≤ top → next_fat_size o ts x ≤ top
    unfolding top
    below x le = next-antitone 0 x (omega arith) (le_trans (mul-le-mul_left o.fc le) fits)

    -- what the loop comes to: a size that needs itself, or no end
    Settled : ℕ → ℕ → Type 0
    Settled fuel x =
        ((s : ℕ) × (next_fat_size o ts s ≡ s) × (fat_size_loop o ts fuel x ≡ some s))
        ⊎ ((more : ℕ) → fat_size_loop o ts more x ≡ none)

    settle_from :
        (n fuel x : ℕ)
        → x ≤ top
        → top - x ≤ n
        → 2 * n + 2 ≤ fuel
        → x ≤ next_fat_size o ts (next_fat_size o ts x)
        → Settled fuel x
    unfolding Settled
    settle_from n zero x le room enough up = absurd (omega arith)
    settle_from n (suc zero) x le room enough up = absurd (omega arith)
    settle_from n (suc (suc fuel)) x le room enough up =
        let y = next_fat_size o ts x in
        let z = next_fat_size o ts y in
        let y_below = below x le in
        let z_below = below y y_below in
        let inside : (k : ℕ) → k ≤ top → o.fc * k ≤ ts - 32 =
          λ k h. le_trans (mul-le-mul_left o.fc h) (unfold top in fits) in
        elim (Bool-cases (y == x)) [
          | inl same ↦ let e = (==_iff y x).0 same in inl (x, e, loop-ends o ts (suc fuel) x e)
          | inr moves ↦ elim (Bool-cases (z == y)) [
            | inl same ↦
                let e = (==_iff z y).0 same in
                inl (y, e, loop-goes o ts (suc fuel) x (==→ne moves) ∙ loop-ends o ts fuel y e)
            | inr moves_on ↦ elim (Bool-cases (z == x)) [
              | inl back ↦ inr (λ more.
                  loop-cycle o ts more x y refl ((==_iff z x).0 back) (λ e. ==→ne moves (sym e)))
              | inr on ↦
                  let grows : x < z = ground (arith, up, ==→ne on) in
                  let again = next-antitone x z (omega (arith, grows)) (inside z z_below) in
                  let up_again = next-antitone (next_fat_size o ts z) y again (inside y y_below) in
                  elim (settle_from (n - 1) fuel z z_below (omega (arith, room, grows))
                    (omega (arith, room, grows, z_below, enough)) up_again) [
                      | inl (s, fixed, run) ↦ inl (
                        s,
                        fixed,
                        loop-goes o ts (suc fuel) x (==→ne moves)
                            ∙ loop-goes o ts fuel y (==→ne moves_on)
                            ∙ run,
                      )
                      | inr never ↦ inr (
                          loop-never o ts x (==→ne moves)
                            (loop-never o ts y (==→ne moves_on) never))
                    ]
            ]
          ]
        ]

    -- With more rounds than twice the size that the loop computes first, _calculate_fat_size either
    -- returns a size that is just enough for an entry of every cluster that it leaves, or it never ends,
    -- in any number of rounds: then two sizes lead to each other. This is for any options whose tables
    -- of the first size fit the volume.
    pub calculate_fat_size-settles :
        (fuel : ℕ)
        → 2 * next_fat_size o ts 0 + 2 ≤ fuel
        → ((s : ℕ) × Exact o ts s × (calculate_fat_size o ts fuel ≡ some s))
          ⊎ ((more : ℕ) → calculate_fat_size o ts more ≡ none)
    unfolding calculate_fat_size Settled
    calculate_fat_size-settles fuel enough =
        elim (settle_from top fuel 0 (omega arith) (omega arith) (unfold top in enough)
          (omega arith)) [
            | inl (s, fixed, run) ↦ inl (s, fixed-Exact s fixed, run)
            | inr never ↦ inr never
          ]
