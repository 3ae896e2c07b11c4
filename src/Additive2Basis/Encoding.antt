-- ===== src/Additive2Basis/Encoding.antt =====
-- Which power of the message stands at which place of its encoding.
use ab_prototype.Prelude.{
  ℕ, ◌+◌, ◌-◌, ◌*◌, ◌<◌, ◌≡◌, refl, ap, ◌∙◌, List, [], ◌∷◌, ◌++◌, map-append, append_assoc, some,
  length, length-append, get_elem?, get_elem?-in_head, get_elem?-in_tail, arith,
}
use ab_prototype.ZzP.{ZzP}
use ab_prototype.Additive2Basis.{add2basis_gen, encode_input, add2basis_encode}
use ab_prototype.Additive2Basis.Segments.{
  segment, progression-segment, length-segment, get_elem?-segment, map-progression,
}

module _ {A : Type 0} ⦃z : ZzP A⦄ where
  -- Encoding over the generated basis and encoding directly give the same vector.
  pub encode_input-add2basis_gen :
      (msg : A) (L : ℕ) → encode_input (add2basis_gen L) msg ≡ add2basis_encode msg L
  unfolding encode_input add2basis_gen add2basis_encode
  encode_input-add2basis_gen msg L = simp (map-append, map-progression)

module _ {A : Type 0} ⦃z : ZzP A⦄ (msg : A) (L : ℕ) where
  abbrev s1 : List A
  s1 = segment (z.power msg) L 1 0

  abbrev s2 : List A
  s2 = segment (z.power msg) (3 * L) L L

  abbrev s3 : List A
  s3 = segment (z.power msg) L (L + 1) (3 * (L * L) + L - 1)

  abbrev s4 : List A
  s4 = segment (z.power msg) (L + 1) 1 (6 * (L * L) + 4 * L - 1)

  abbrev s5 : List A
  s5 = segment (z.power msg) (L + 1) 1 (10 * (L * L) + 7 * L - 1)

  abbrev s6 : List A
  s6 =
      z.power msg (L + 1)
      ∷ z.power msg (6 * (L * L) + 4 * L - 1)
      ∷ z.power msg (10 * (L * L) + 7 * L - 1)
      ∷ []

  encode_segments : add2basis_encode msg L ≡ s1 ++ (s2 ++ (s3 ++ (s4 ++ (s5 ++ s6))))
  unfolding add2basis_encode
  encode_segments = simp (progression-segment, append_assoc)

  -- The encoding has 7 * L + 5 elements.
  pub length-add2basis_encode : length (add2basis_encode msg L) ≡ 7 * L + 5
  length-add2basis_encode =
      ap length encode_segments ∙ simp (length-append, length-segment) (omega arith)

  -- The place `i` of the encoding holds the message to the power `e`.
  abbrev pub Holds : ℕ → ℕ → Type 0
  Holds i e = get_elem? (add2basis_encode msg L) i ≡ some (z.power msg e)

  -- The first segment.
  pub holds1 : (i e : ℕ) → i < L → e ≡ i + 1 → Holds i e
  holds1 i e h k =
      rw encode_segments
        (get_elem?-in_head s1 _ i (get_elem?-segment (z.power msg) L 1 0 i e h (omega arith)))

  after1 :
      (i j : ℕ) {v : A}
      → j ≡ L + i
      → get_elem? (s2 ++ (s3 ++ (s4 ++ (s5 ++ s6)))) i ≡ some v
      → get_elem? (add2basis_encode msg L) j ≡ some v
  after1 i j e h =
      rw encode_segments (get_elem?-in_tail s1 _ L i j (length-segment (z.power msg) L 1 0) e h)

  pub holds2 : (i t e : ℕ) → i ≡ L + t → t < 3 * L → e ≡ (t + 2) * L → Holds i e
  holds2 i t e p h k =
      after1 t i p
        (get_elem?-in_head s2 _ t (get_elem?-segment (z.power msg) (3 * L) L L t e h (omega arith)))

  after2 :
      (i j : ℕ) {v : A}
      → j ≡ 4 * L + i
      → get_elem? (s3 ++ (s4 ++ (s5 ++ s6))) i ≡ some v
      → get_elem? (add2basis_encode msg L) j ≡ some v
  after2 i j e h =
      after1 (3 * L + i) j (omega arith)
        (get_elem?-in_tail s2 _ (3 * L) i _ (length-segment (z.power msg) (3 * L) L L) refl h)

  pub holds3 :
      (i t e : ℕ) → i ≡ 4 * L + t → t < L → e ≡ 3 * (L * L) + L - 1 + (t + 1) * (L + 1) → Holds i e
  holds3 i t e p h k =
      after2 t i p (get_elem?-in_head s3 _ t (get_elem?-segment (z.power msg) L (L + 1) _ t e h k))

  after3 :
      (i j : ℕ) {v : A}
      → j ≡ 5 * L + i
      → get_elem? (s4 ++ (s5 ++ s6)) i ≡ some v
      → get_elem? (add2basis_encode msg L) j ≡ some v
  after3 i j e h =
      after2 (L + i) j (omega arith)
        (get_elem?-in_tail s3 _ L i _ (length-segment (z.power msg) L (L + 1) _) refl h)

  pub holds4 :
      (i t e : ℕ) → 0 < L → i ≡ 5 * L + t → t < L + 1 → e ≡ 6 * (L * L) + 4 * L + t → Holds i e
  holds4 i t e l p h k =
      after3 t i p
        (get_elem?-in_head s4 _ t (get_elem?-segment (z.power msg) (L + 1) 1 _ t e h (omega arith)))

  after4 :
      (i j : ℕ) {v : A}
      → j ≡ 6 * L + 1 + i
      → get_elem? (s5 ++ s6) i ≡ some v
      → get_elem? (add2basis_encode msg L) j ≡ some v
  after4 i j e h =
      after3 (L + 1 + i) j (omega arith)
        (get_elem?-in_tail s4 _ (L + 1) i _ (length-segment (z.power msg) (L + 1) 1 _) refl h)

  pub holds5 :
      (i t e : ℕ) → 0 < L → i ≡ 6 * L + 1 + t → t < L + 1 → e ≡ 10 * (L * L) + 7 * L + t → Holds i e
  holds5 i t e l p h k =
      after4 t i p
        (get_elem?-in_head s5 _ t (get_elem?-segment (z.power msg) (L + 1) 1 _ t e h (omega arith)))

  after5 :
      (i j : ℕ) {v : A}
      → j ≡ 7 * L + 2 + i
      → get_elem? s6 i ≡ some v
      → get_elem? (add2basis_encode msg L) j ≡ some v
  after5 i j e h =
      after4 (L + 1 + i) j (omega arith)
        (get_elem?-in_tail s5 _ (L + 1) i _ (length-segment (z.power msg) (L + 1) 1 _) refl h)

  -- The three elements of S_6.
  pub holds6 : (i : ℕ) → i ≡ 7 * L + 2 → Holds i (L + 1)
  holds6 i p = after5 0 i (omega arith) refl

  pub holds7 : (i : ℕ) → i ≡ 7 * L + 3 → Holds i (6 * (L * L) + 4 * L - 1)
  holds7 i p = after5 1 i (omega arith) refl

  pub holds8 : (i : ℕ) → i ≡ 7 * L + 4 → Holds i (10 * (L * L) + 7 * L - 1)
  holds8 i p = after5 2 i (omega arith) refl
