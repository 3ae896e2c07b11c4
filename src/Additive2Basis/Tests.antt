-- ===== src/Additive2Basis/Tests.antt =====
-- The encoding and its circuits at small parameters, over the residues modulo 7.
use mathlib.Core.Option
use ab_prototype.Prelude.{
  ℕ, ◌≡◌, ◌↔◌, refl, Option, some, none, List, [], ◌∷◌, map, length, replicate, arith, for_range,
  for_rounds,
}
use ab_prototype.ZzP.{ZzP}
use ab_prototype.ZzP.Residues.{Residue, residues}
use ab_prototype.Additive2Basis.{progression, add2basis_gen, add2basis_encode, encode_input}
use ab_prototype.Additive2Basis.Encoding.{encode_input-add2basis_gen}
use ab_prototype.Additive2Basis.Circuit.{
  circuit, copy_products, append, num_messages, decompress_encoding, opt_decompress_encoding,
}
use ab_prototype.Additive2Basis.Decompress.{
  powers, decompress_encoding-add2basis_encode, opt_decompress_encoding-add2basis_encode,
}
use ab_prototype.Additive2Basis.Verify.{check, verify_format}
use ab_prototype.Additive2Basis.Sound.{verify_format_iff}

instance abbrev mod7 : ZzP (Residue 7)
mod7 = residues 7 (omega arith)

abbrev three : Residue 7
three = (3, omega arith)

-- The basis for L = 1, whose sums of at most two elements are 1 to 23.
add2basis_gen_one : add2basis_gen 1 ≡ 1 ∷ 2 ∷ 3 ∷ 4 ∷ 5 ∷ 10 ∷ 11 ∷ 17 ∷ 18 ∷ 2 ∷ 9 ∷ 16 ∷ []
unfolding add2basis_gen progression
add2basis_gen_one = refl

values : Option (List (Residue 7)) → Option (List ℕ)
values = Option.map (map (λ r. r.0))

-- 3 is a generator modulo 7.
decompress_encoding_one :
    values (decompress_encoding (add2basis_encode three 1) 1)
    ≡ some (
        3 ∷ 2 ∷ 6 ∷ 4 ∷ 5 ∷ 1 ∷ 3 ∷ 2 ∷ 6 ∷ 4 ∷ 5 ∷ 1 ∷ 3 ∷ 2 ∷ 6 ∷ 4 ∷ 5 ∷ 1 ∷ 3 ∷ 2 ∷ 6 ∷ 4 ∷ 5
        ∷ [])
unfolding values decompress_encoding circuit copy_products append add2basis_encode progression
    for_range for_rounds
decompress_encoding_one = refl

-- An input that is too short is read out of range.
decompress_encoding_short : decompress_encoding (three ∷ three ∷ []) 1 ≡ none
unfolding decompress_encoding circuit copy_products append for_range for_rounds
decompress_encoding_short = refl

encode_input-add2basis_gen_example : encode_input (add2basis_gen 2) three ≡ add2basis_encode three 2
encode_input-add2basis_gen_example = encode_input-add2basis_gen three 2

decompress_encoding-add2basis_encode_example :
    decompress_encoding (add2basis_encode three 2) 2 ≡ some (powers three (num_messages 2))
decompress_encoding-add2basis_encode_example =
    decompress_encoding-add2basis_encode three 2 (omega arith)

opt_decompress_encoding-add2basis_encode_example :
    opt_decompress_encoding (add2basis_encode three 2) 2 ≡ some (powers three (num_messages 2))
opt_decompress_encoding-add2basis_encode_example =
    opt_decompress_encoding-add2basis_encode three 2 (omega arith)

-- An input that is no encoding is mapped to another value by some coins.
verify_format_rejects :
    Option.map (λ r. r.0) (verify_format (replicate 11 mod7.one) (replicate 12 three) 1) ≡ some 4
unfolding verify_format check for_range for_rounds
verify_format_rejects = refl

verify_format_iff_example :
    ((coins : List (Residue 7))
      → length coins ≡ 11
      → verify_format coins (add2basis_encode three 1) 1 ≡ some mod7.zero)
    ↔ ((msg : Residue 7) × (add2basis_encode three 1 ≡ add2basis_encode msg 1))
unfolding add2basis_encode progression
verify_format_iff_example = verify_format_iff 1 (omega arith) (add2basis_encode three 1) refl
