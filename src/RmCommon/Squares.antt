-- ===== src/RmCommon/Squares.antt =====
-- Powers modulo a number by repeated squaring, with which the table of FFT primes is checked.
use native.Mathlib.Nat.{pow-suc, pow-zero}
use ab_prototype.Prelude.{ℕ, zero, suc, ◌+◌, ◌*◌, ◌%◌, ◌^◌, ◌≡◌, ap, sym, ◌∙◌, arith}
use ab_prototype.ZzP.Residues.{mul-mod-mod, mod-mul-mod}

-- x squared k times, modulo p.
unfoldable pub square_times : ℕ → ℕ → ℕ → ℕ
square_times zero x p = x % p
square_times (suc zero) x p = x * x % p
square_times (suc (suc k)) x p = square_times k (x * x * (x * x) % p) p

pow-double : (x m : ℕ) → (x * x) ^ m ≡ x ^ (2 * m)
pow-double x zero = rw (pow-zero (x * x), pow-zero x)
pow-double x (suc m) =
    let e : 2 * suc m ≡ suc (suc (2 * m)) = omega arith in
    rw (e, pow-suc (x * x) m, pow-suc x (suc (2 * m)), pow-suc x (2 * m), pow-double x m)
      (omega arith)

pow-mod : (a m p : ℕ) → (a % p) ^ m % p ≡ a ^ m % p
pow-mod a zero p = rw (pow-zero (a % p), pow-zero a)
pow-mod a (suc m) p =
    rw (pow-suc (a % p) m, pow-suc a m)
      (mul-mod-mod ((a % p) ^ m) a p
        ∙ sym (mod-mul-mod ((a % p) ^ m) a p)
        ∙ ap (λ (x : ℕ). x * a % p) (pow-mod a m p)
        ∙ mod-mul-mod (a ^ m) a p)

pub square_times-pow : (k x p : ℕ) → square_times k x p ≡ x ^ (2 ^ k) % p
unfolding square_times
square_times-pow zero x p = ap (λ (y : ℕ). y % p) one
  where
    one : x ≡ x ^ (2 ^ zero)
    one = rw (pow-suc x 0, pow-zero x) (omega arith)
square_times-pow (suc zero) x p = ap (λ (y : ℕ). y % p) two
  where
    two : x * x ≡ x ^ (2 ^ suc zero)
    two = rw (pow-suc x 1, pow-suc x 0, pow-zero x) (omega arith)
square_times-pow (suc (suc k)) x p =
    square_times-pow k (x * x * (x * x) % p) p
    ∙ pow-mod (x * x * (x * x)) (2 ^ k) p
    ∙ ap (λ (y : ℕ). y % p)
        (pow-double (x * x) (2 ^ k) ∙ pow-double x (2 * 2 ^ k) ∙ ap (λ (m : ℕ). x ^ m) four)
  where
    four : 2 * (2 * 2 ^ k) ≡ 2 ^ suc (suc k)
    four = rw (pow-suc 2 (suc k), pow-suc 2 k) (omega arith)

pow-pow_two : (j k x : ℕ) → x ^ (2 ^ (j + k)) ≡ (x ^ (2 ^ j)) ^ (2 ^ k)
pow-pow_two zero k x = ap (λ (m : ℕ). x ^ (2 ^ m)) none_more ∙ ap (λ (y : ℕ). y ^ (2 ^ k)) one
  where
    none_more : zero + k ≡ k
    none_more = omega arith

    one : x ≡ x ^ (2 ^ zero)
    one = rw (pow-suc x 0, pow-zero x) (omega arith)
pow-pow_two (suc j) k x =
    ap (λ (m : ℕ). x ^ m)
      (ap (λ (m : ℕ). 2 ^ m) one_more ∙ pow-suc 2 (j + k) ∙ commuted (2 ^ (j + k)))
    ∙ sym (pow-double x (2 ^ (j + k)))
    ∙ pow-pow_two j k (x * x)
    ∙ ap (λ (y : ℕ). y ^ (2 ^ k))
        (pow-double x (2 ^ j) ∙ ap (λ (m : ℕ). x ^ m) (sym (pow-suc 2 j ∙ commuted (2 ^ j))))
  where
    one_more : suc j + k ≡ suc (j + k)
    one_more = omega arith

    commuted : (m : ℕ) → m * 2 ≡ 2 * m
    commuted m = omega arith

pub square_times-add :
    (j k x p : ℕ) → square_times (j + k) x p ≡ square_times k (square_times j x p) p
square_times-add j k x p =
    square_times-pow (j + k) x p
    ∙ ap (λ (y : ℕ). y % p) (pow-pow_two j k x)
    ∙ sym (pow-mod (x ^ (2 ^ j)) (2 ^ k) p)
    ∙ ap (λ (y : ℕ). y ^ (2 ^ k) % p) (sym (square_times-pow j x p))
    ∙ sym (square_times-pow k (square_times j x p) p)
