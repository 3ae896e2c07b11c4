-- ===== src/RmCommon/Counts.antt =====
-- The counts on Boolean vectors, and the parameters derived from the number of servers.
use ab_prototype.Prelude.{
  ℕ, ◌+◌, ◌*◌, ◌≤◌, ◌<◌, ◌≡◌, ◌↔◌, refl, Bool, true, false, List, [], ◌∷◌, length, if◌then◌else◌,
  arith, ◌&&◌,
}
use ab_prototype.RmCommon.{
  PrimeInfo, count_truths, number_of_truths, all_true_from, is_all_true, fill_rm_info,
}

count_truths-acc : (vec : List Bool) (cnt : ℕ) → count_truths vec cnt ≡ count_truths vec 0 + cnt
unfolding count_truths
count_truths-acc [] cnt = omega arith
count_truths-acc (true ∷ vec) cnt =
    omega (arith, count_truths-acc vec (cnt + 1), count_truths-acc vec (0 + 1))
count_truths-acc (false ∷ vec) cnt = count_truths-acc vec cnt

pub number_of_truths-cons :
    (b : Bool) (vec : List Bool)
    → number_of_truths (b ∷ vec) ≡ (if b then 1 else 0) + number_of_truths vec
unfolding number_of_truths
number_of_truths-cons true vec = omega (arith, count_truths-acc vec (0 + 1))
number_of_truths-cons false vec = omega arith

number_of_truths-le : (vec : List Bool) → number_of_truths vec ≤ length vec
number_of_truths-le [] = unfold number_of_truths in omega arith
number_of_truths-le (b ∷ vec) = ground (arith, number_of_truths-cons b vec, number_of_truths-le vec)

all_true_from-false : (vec : List Bool) → all_true_from vec false ≡ false
unfolding all_true_from
all_true_from-false [] = refl
all_true_from-false (b ∷ vec) = all_true_from-false vec

pub is_all_true-cons : (b : Bool) (vec : List Bool) → is_all_true (b ∷ vec) ≡ (b && is_all_true vec)
unfolding is_all_true
is_all_true-cons true vec = refl
is_all_true-cons false vec = all_true_from-false vec

pub is_all_true-nil : is_all_true [] ≡ true
unfolding is_all_true
is_all_true-nil = refl

-- A vector passes `is_all_true` exactly when the number of its true values is its length.
pub is_all_true_iff :
    (vec : List Bool) → (is_all_true vec ≡ true) ↔ (number_of_truths vec ≡ length vec)
is_all_true_iff [] = ((λ h. unfold number_of_truths in refl), (λ h. is_all_true-nil))
is_all_true_iff (b ∷ vec) =
    let (there, back) = is_all_true_iff vec in
    (
      λ h. ground (arith, is_all_true-cons b vec, number_of_truths-cons b vec, there),
      λ h. ground (
        arith,
        is_all_true-cons b vec,
        number_of_truths-cons b vec,
        number_of_truths-le vec,
        back,
      ),
    )

-- For n > 0 servers, 4 * t < n ≤ 4 * (t + 1): t is the largest number of corrupted servers below a
-- quarter of them.
pub fill_rm_info-t :
    (info : PrimeInfo) (n server_id L : ℕ)
    → 0 < n
    → (4 * (fill_rm_info info n server_id L).t < n)
      × (n ≤ 4 * (fill_rm_info info n server_id L).t + 4)
unfolding fill_rm_info
fill_rm_info-t info n server_id L h = ground arith
