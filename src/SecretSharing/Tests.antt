-- ===== src/SecretSharing/Tests.antt =====
-- The decoder of secretsharing.h over the residues modulo 7.
use mathlib.Core.Option
use ab_prototype.Prelude.{ℕ, ◌≡◌, refl, inr, Bool, true, Option, some, List, [], ◌∷◌, map, arith}
use ab_prototype.ZzP.Residues.{Residue, of_ℕ}
use ab_prototype.SecretSharing.{
  gen_xvals, rs_decode, points_where, max_errors, gao_decode, partial_gcd, degree_at_most,
  packed_share_secret, set_coeffs,
}
use ab_prototype.SecretSharing.Decoding.{IsResult, rs_decode-IsResult}
use ab_prototype.SecretSharing.RoundTrip.{sharing_polynomial, rs_decode-packed_share_secret}
use ab_prototype.SecretSharing.Samples.{mod7, Coeffs, poly7}

-- Shares of 3 + 2 * x at the points 1 to 5, of which the third should be 2.
abbrev shares : List (Residue 7)
shares = map (of_ℕ 7 (omega arith)) (5 ∷ 0 ∷ 6 ∷ 4 ∷ 6 ∷ [])

values : Option (Bool × List (Residue 7) × List (Residue 7)) → Option (Bool × List ℕ × List ℕ)
values = Option.map (λ r. (r.0, map (λ a. a.0) r.1, map (λ a. a.0) r.2))

-- The decoder finds the secret and the wrong share.
rs_decode_corrects :
    values (
      rs_decode
        (Residue 7)
        Coeffs
        []
        []
        (gen_xvals 5)
        shares
        (poly7.build_from_roots (gen_xvals 5))
        1
        1)
    ≡ some (true, 3 ∷ [], 3 ∷ [])
unfolding values rs_decode gen_xvals points_where max_errors gao_decode partial_gcd degree_at_most
rs_decode_corrects = refl

rs_decode-IsResult_example :
    (res : Bool × List (Residue 7) × List (Residue 7)) × (rs_decode
        (Residue 7)
        Coeffs
        []
        []
        (gen_xvals 5)
        shares
        (poly7.build_from_roots (gen_xvals 5))
        1
        1
      ≡ some res)
    × IsResult (Residue 7) Coeffs (gen_xvals 5) shares 1 1 res
unfolding gen_xvals
rs_decode-IsResult_example =
    rs_decode-IsResult (Residue 7) Coeffs (gen_xvals 5) shares
      (poly7.build_from_roots (gen_xvals 5)) 1 1 (omega arith)

-- One message, and a polynomial of degree 1.
abbrev random : ℕ → Residue 7
random i = of_ℕ 7 (omega arith) 2

abbrev secret : List (Residue 7)
secret = of_ℕ 7 (omega arith) 3 ∷ []

abbrev shared : List (Residue 7)
shared = map (poly7.eval (sharing_polynomial (Residue 7) Coeffs secret 1 random)) (gen_xvals 5)

rs_decode-packed_share_secret_example :
    rs_decode
      (Residue 7)
      Coeffs
      []
      []
      (gen_xvals 5)
      shared
      (poly7.build_from_roots (gen_xvals 5))
      1
      1
    ≡ some (true, secret, [])
unfolding gen_xvals sharing_polynomial packed_share_secret set_coeffs points_where
rs_decode-packed_share_secret_example =
    rs_decode-packed_share_secret (Residue 7) Coeffs (gen_xvals 5) secret 1 random shared
      (poly7.build_from_roots (gen_xvals 5)) refl (omega arith) refl refl refl (inr (omega arith))
