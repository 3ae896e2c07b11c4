-- ===== src/Additive2Basis.antt =====
-- additive2basis.h and rm_additive2basis.h (one text, which the server includes with pointers and
-- the client with references): the additive 2-basis of exponents and the encoding of a message by
-- its powers at those exponents. `a` is a big integer (`ZZ`) in the source, so nothing wraps. The
-- program runs with L from 5 to 27; with L = 0 the source forms negative exponents, so the
-- theorems ask for 0 < L.
pub mod Segments
pub mod Encoding
pub mod Circuit
pub mod Powers
pub mod Stages
pub mod Blocks
pub mod Decompress
pub mod Verify
pub mod Constraints
pub mod Accept
pub mod Sound
pub mod Linear
pub mod Tests
use ab_prototype.Prelude.{ℕ, zero, suc, ◌+◌, ◌-◌, ◌*◌, List, [], ◌∷◌, ◌++◌, map}
use ab_prototype.ZzP.{ZzP}

-- One arithmetic progression: `for (i < n) { a += step; out->append(f(a)); }`.
unfoldable pub progression {ℓ} : {B : Type ℓ} → (ℕ → B) → ℕ → ℕ → ℕ → List B → List B
progression f zero step a out = out
progression f (suc n) step a out = progression f n step (a + step) (out ++ (f (a + step) ∷ []))

-- The exponents: S_1 to S_5, then the three of S_6.
unfoldable pub add2basis_gen : ℕ → List ℕ
add2basis_gen L =
    let s1 = progression (λ a. a) L 1 0 [] in
    let s2 = progression (λ a. a) (3 * L) L L s1 in
    let s3 = progression (λ a. a) L (L + 1) (3 * (L * L) + L - 1) s2 in
    let s4 = progression (λ a. a) (L + 1) 1 (6 * (L * L) + 4 * L - 1) s3 in
    let s5 = progression (λ a. a) (L + 1) 1 (10 * (L * L) + 7 * L - 1) s4 in
    s5 ++ ((L + 1) ∷ (6 * (L * L) + 4 * L - 1) ∷ (10 * (L * L) + 7 * L - 1) ∷ [])

module _ {A : Type 0} ⦃z : ZzP A⦄ where
  -- The encoding of a message over a basis that is given.
  unfoldable pub encode_input : List ℕ → A → List A
  encode_input basis msg = map (z.power msg) basis

  -- The encoding of a message, the basis computed on the way.
  unfoldable pub add2basis_encode : A → ℕ → List A
  add2basis_encode msg L =
      let s1 = progression (z.power msg) L 1 0 [] in
      let s2 = progression (z.power msg) (3 * L) L L s1 in
      let s3 = progression (z.power msg) L (L + 1) (3 * (L * L) + L - 1) s2 in
      let s4 = progression (z.power msg) (L + 1) 1 (6 * (L * L) + 4 * L - 1) s3 in
      let s5 = progression (z.power msg) (L + 1) 1 (10 * (L * L) + 7 * L - 1) s4 in
      s5
      ++ (z.power msg (L + 1)
          ∷ z.power msg (6 * (L * L) + 4 * L - 1)
          ∷ z.power msg (10 * (L * L) + 7 * L - 1)
          ∷ [])
