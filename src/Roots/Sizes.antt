-- ===== src/Roots/Sizes.antt =====
-- The sizes that `find_roots` of root_finding.h chooses for the transform.
use native.Mathlib.Nat.{pow-suc, pow-zero}
use ab_prototype.Prelude.{
  ℕ, zero, suc, ◌+◌, ◌-◌, ◌*◌, ◌/◌, ◌^◌, ◌≤◌, ◌<◌, ◌≡◌, refl, ap, ◌∙◌, Bool, true, false, ◌&&◌, ltb,
  if◌then◌else◌, ltb→lt, and_true_left, and_true_right, arith,
}
use ab_prototype.Roots.Search.{choose_ell, chi_of}

pow-add : (m n : ℕ) → 2 ^ (m + n) ≡ 2 ^ m * 2 ^ n
pow-add zero n = let e : zero + n ≡ n = omega arith in rw (e, pow-zero 2) (omega arith)
pow-add (suc m) n =
    let e : suc m + n ≡ suc (m + n) = omega arith in
    rw (e, pow-suc 2 (m + n), pow-suc 2 m, pow-add m n) (grind arith)

four_times : (m a b : ℕ) → 4 * m * 2 ^ a * 2 ^ b ≡ m * 2 ^ suc (suc (a + b))
four_times m a b =
    rw (pow-suc 2 (suc (a + b)), pow-suc 2 (a + b), pow-add a b) (regroup m (2 ^ a) (2 ^ b))
  where
    regroup : (m x y : ℕ) → 4 * m * x * y ≡ m * (x * y * 2 * 2)
    regroup m x y = grind arith

-- What the loop leaves.
record IsChosen (odd_factor two_exponent degree ell : ℕ) : Type 0 where
  positive : 1 ≤ ell
  in_range : ell ≤ two_exponent - 2
  enough : degree < 2 * (odd_factor * 2 ^ (two_exponent - 2 - ell))

halved : (odd n : ℕ) → odd * 2 ^ suc n / 2 ≡ odd * 2 ^ n
halved odd n = rw (pow-suc 2 n) (grind arith)

doubled : (odd n : ℕ) → odd * 2 ^ suc n ≡ 2 * (odd * 2 ^ n)
doubled odd n = rw (pow-suc 2 n) (grind arith)

IsChosen-if :
    (odd te degree : ℕ) (b : Bool) (x y : ℕ)
    → (b ≡ true → IsChosen odd te degree x)
    → IsChosen odd te degree y
    → IsChosen odd te degree (if b then x else y)
IsChosen-if odd te degree true x y f g = f refl
IsChosen-if odd te degree false x y f g = g

stopped :
    (n odd te degree ell : ℕ)
    → ell + n ≡ te - 2
    → 1 ≤ ell
    → degree < 2 * (odd * 2 ^ n)
    → IsChosen odd te degree ell
stopped n odd te degree ell e pos lt =
    let left : te - 2 - ell ≡ n = omega arith in
    record { positive = pos; in_range = omega arith; enough = rw left lt }

choose_ell-IsChosen :
    (rounds n odd two_exponent degree ell : ℕ)
    → n ≤ rounds
    → ell + n ≡ two_exponent - 2
    → 1 ≤ ell
    → degree < 2 * (odd * 2 ^ n)
    → IsChosen odd two_exponent degree (choose_ell rounds degree two_exponent (odd * 2 ^ n) ell)
unfolding choose_ell
choose_ell-IsChosen zero zero odd te degree ell h e pos lt = stopped zero odd te degree ell e pos lt
choose_ell-IsChosen zero (suc n) odd te degree ell h e pos lt = absurd (omega arith)
choose_ell-IsChosen (suc rounds) zero odd te degree ell h e pos lt =
    IsChosen-if odd te degree (ltb degree (odd * 2 ^ 0) && ltb ell (te - 2))
      (choose_ell rounds degree te (odd * 2 ^ 0 / 2) (ell + 1)) ell
      (λ b.
        let lt' : ell < te - 2 =
          ltb→lt ell (te - 2) (and_true_right (ltb degree (odd * 2 ^ 0)) _ b) in
        absurd (omega arith))
      (stopped zero odd te degree ell e pos lt)
choose_ell-IsChosen (suc rounds) (suc n) odd te degree ell h e pos lt =
    IsChosen-if odd te degree (ltb degree (odd * 2 ^ suc n) && ltb ell (te - 2))
      (choose_ell rounds degree te (odd * 2 ^ suc n / 2) (ell + 1)) ell
      (λ b.
        let lt' : degree < odd * 2 ^ suc n =
          ltb→lt degree (odd * 2 ^ suc n) (and_true_left (ltb degree (odd * 2 ^ suc n)) _ b) in
        rw (halved odd n) (
          choose_ell-IsChosen rounds n odd te degree (ell + 1) (omega arith) (omega arith)
            (omega arith) (omega (arith, doubled odd n))))
      (stopped (suc n) odd te degree ell e pos lt)

-- The transform is long enough for the polynomial, and its length and the exponent of the roots
-- give the order of the group: for two_exponent > 3 and a degree below odd_factor * 2 ^
-- (two_exponent - 3), the `ell` that is chosen lies in 1 to two_exponent - 2, twice the degree is
-- below chi, and chi * 2 ^ ell is odd_factor * 2 ^ two_exponent, which is the prime less 1.
pub choose_ell-chi_of :
    (odd_factor two_exponent degree ell : ℕ)
    → 3 < two_exponent
    → degree < odd_factor * 2 ^ (two_exponent - 3)
    → ell ≡ choose_ell two_exponent degree two_exponent (odd_factor * 2 ^ (two_exponent - 3)) 1
    → (1 ≤ ell)
      × (ell ≤ two_exponent - 2)
      × (2 * degree < chi_of odd_factor two_exponent ell)
      × (chi_of odd_factor two_exponent ell * 2 ^ ell ≡ odd_factor * 2 ^ two_exponent)
unfolding chi_of
choose_ell-chi_of odd te degree ell h lt e =
    let chosen : IsChosen odd te degree ell = rw e (
      choose_ell-IsChosen te (te - 3) odd te degree 1 (omega arith) (omega arith) (omega arith)
        (omega arith)) in
    (
      chosen.positive,
      chosen.in_range,
      omega (arith, chosen.enough, by_four odd (2 ^ (te - 2 - ell))),
      order chosen.positive chosen.in_range,
    )
  where
    by_four : (m n : ℕ) → 4 * m * n ≡ 4 * (m * n)
    by_four m n = grind arith

    order : 1 ≤ ell → ell ≤ te - 2 → 4 * odd * 2 ^ (te - 2 - ell) * 2 ^ ell ≡ odd * 2 ^ te
    order pos range = four_times odd (te - 2 - ell) ell ∙ ap (λ t. odd * 2 ^ t) (omega arith)
