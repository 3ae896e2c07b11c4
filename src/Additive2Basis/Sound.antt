-- ===== src/Additive2Basis/Sound.antt =====
-- Only honest encodings satisfy the constraints of the format verification circuit.
use ab_prototype.Prelude.{
  ℕ, zero, suc, ◌+◌, ◌-◌, ◌*◌, ◌<◌, ◌≡◌, ◌↔◌, refl, ap, ◌∙◌, sym, some, List, ◌++◌, ◌∷◌, length,
  get_elem?, get_elem?-some, eq_of_get_elem?, arith, AllOf, AllOf-append_left, AllOf-append_right,
  AllOf-map-count_from_at,
}
use native.Mathlib.Decide.{dec_lt}
use ab_prototype.ZzP.{ZzP}
use ab_prototype.ZzP.Laws.{power-add, power-one}
use ab_prototype.Additive2Basis.{add2basis_encode}
use ab_prototype.Additive2Basis.Encoding.{
  length-add2basis_encode, holds1, holds2, holds3, holds4, holds5, holds6, holds7, holds8,
}
use ab_prototype.Additive2Basis.Verify.{verify_format}
use ab_prototype.Additive2Basis.Constraints.{
  Constraint, times, singles, chain1, chain2, chain3, chain4, chain5, constraints,
}
use ab_prototype.Additive2Basis.Accept.{Satisfied, verify_format-add2basis_encode}
use ab_prototype.Additive2Basis.Linear.{constraints_forced}

-- The eight parts of an encoding.
data Place (L i : ℕ) : Type 0 where
  in1 : i < L → Place L i
  in2 : (t : ℕ) → i ≡ L + t → t < 3 * L → Place L i
  in3 : (t : ℕ) → i ≡ 4 * L + t → t < L → Place L i
  in4 : (t : ℕ) → i ≡ 5 * L + t → t < L + 1 → Place L i
  in5 : (t : ℕ) → i ≡ 6 * L + 1 + t → t < L + 1 → Place L i
  in6 : i ≡ 7 * L + 2 → Place L i
  in7 : i ≡ 7 * L + 3 → Place L i
  in8 : i ≡ 7 * L + 4 → Place L i

place : (L i : ℕ) → i < 7 * L + 5 → Place L i
place L i h = elim (dec_lt i L) [
  | yes l ↦ in1 l
  | no n1 ↦ elim (dec_lt i (4 * L)) [
    | yes l ↦ in2 (i - L) (omega arith) (omega arith)
    | no n2 ↦ elim (dec_lt i (5 * L)) [
      | yes l ↦ in3 (i - 4 * L) (omega arith) (omega arith)
      | no n3 ↦ elim (dec_lt i (6 * L + 1)) [
        | yes l ↦ in4 (i - 5 * L) (omega arith) (omega arith)
        | no n4 ↦ elim (dec_lt i (7 * L + 2)) [
          | yes l ↦ in5 (i - (6 * L + 1)) (omega arith) (omega arith)
          | no n5 ↦ elim (dec_lt i (7 * L + 3)) [
            | yes l ↦ in6 (omega arith)
            | no n6 ↦ elim (dec_lt i (7 * L + 4)) [
              | yes l ↦ in7 (omega arith)
              | no n7 ↦ in8 (omega arith)
            ]
          ]
        ]
      ]
    ]
  ]
]

module _ {A : Type 0} ⦃z : ZzP A⦄ (input : List A) (L : ℕ) (L_pos : 0 < L) (msg : A)
    (first : get_elem? input 0 ≡ some msg) (all : AllOf (Satisfied input) (constraints L)) where
  -- The place `i` of the input holds the message to the power `e`.
  abbrev Is : ℕ → ℕ → Type 0
  Is i e = get_elem? input i ≡ some (z.power msg e)

  abbrev P : Constraint → Type 0
  P = Satisfied input

  deduce : (i j k a b e : ℕ) → e ≡ a + b → P (times i j k) → Is j a → Is k b → Is i e
  deduce i j k a b e s (u, v, ep, el, er) hj hk =
      let eu : u ≡ z.power msg a = cc in
      let ev : v ≡ z.power msg b = cc in rw (s, power-add msg a b, ← eu, ← ev) ep

  after1 : AllOf P (
      chain2 L
      ++ (chain3 L ++ (times (7 * L + 2) 0 (L - 1) ∷ (chain4 L ++ (chain5 L ++ singles L)))))
  after1 = AllOf-append_right P (chain1 L) _ all

  after2 :
      AllOf P (chain3 L ++ (times (7 * L + 2) 0 (L - 1) ∷ (chain4 L ++ (chain5 L ++ singles L))))
  after2 = AllOf-append_right P (chain2 L) _ after1

  after3 : AllOf P (times (7 * L + 2) 0 (L - 1) ∷ (chain4 L ++ (chain5 L ++ singles L)))
  after3 = AllOf-append_right P (chain3 L) _ after2

  after4 : AllOf P (chain5 L ++ singles L)
  after4 = AllOf-append_right P (chain4 L) _ after3.1

  after5 : AllOf P (singles L)
  after5 = AllOf-append_right P (chain5 L) _ after4

  link1 : (t : ℕ) → t < L - 1 - 0 → P (times (0 + t + 1) (0 + t) 0)
  link1 t l =
      AllOf-map-count_from_at P (λ i. times (i + 1) i 0) (L - 1 - 0) 0 t
        (AllOf-append_left P (chain1 L) _ all) l

  link2 : (t : ℕ) → t < 4 * L - 1 - L → P (times (L + t + 1) (L + t) (L - 1))
  link2 t l =
      AllOf-map-count_from_at P (λ i. times (i + 1) i (L - 1)) (4 * L - 1 - L) L t
        (AllOf-append_left P (chain2 L) _ after1) l

  link3 : (t : ℕ) → t < 5 * L - 1 - 4 * L → P (times (4 * L + t + 1) (4 * L + t) (7 * L + 2))
  link3 t l =
      AllOf-map-count_from_at P (λ i. times (i + 1) i (7 * L + 2)) (5 * L - 1 - 4 * L) (4 * L) t
        (AllOf-append_left P (chain3 L) _ after2) l

  link4 : (t : ℕ) → t < 6 * L - 5 * L → P (times (5 * L + t + 1) 0 (5 * L + t))
  link4 t l =
      AllOf-map-count_from_at P (λ i. times (i + 1) 0 i) (6 * L - 5 * L) (5 * L) t
        (AllOf-append_left P (chain4 L) _ after3.1) l

  link5 : (t : ℕ) → t < 7 * L + 1 - (6 * L + 1) → P (times (6 * L + 1 + t + 1) 0 (6 * L + 1 + t))
  link5 t l =
      AllOf-map-count_from_at P (λ i. times (i + 1) 0 i) (7 * L + 1 - (6 * L + 1)) (6 * L + 1) t
        (AllOf-append_left P (chain5 L) _ after4) l

  is0 : Is 0 1
  is0 = rw (power-one msg) first

  is1 : (t i : ℕ) → i ≡ t → t < L → Is i (t + 1)
  is1 zero i e l = rw e is0
  is1 (suc t) i e l =
      let at : i ≡ 0 + t + 1 = omega arith in
      rw at (
        deduce _ _ _ (t + 1) 1 _ (omega arith) (link1 t (omega arith))
          (is1 t (0 + t) (omega arith) (omega arith)) is0)

  Is-L : Is (L - 1) L
  Is-L = let e : L - 1 + 1 ≡ L = omega arith in rw e at (is1 (L - 1) (L - 1) refl (omega arith))

  is2 : (t i : ℕ) → i ≡ L + t → t < 3 * L → Is i ((t + 2) * L)
  is2 zero i e l =
      let at : i ≡ L = omega arith in rw at (deduce _ _ _ L L _ (omega arith) after5.0 Is-L Is-L)
  is2 (suc t) i e l =
      let at : i ≡ L + t + 1 = omega arith in
      rw at (
        deduce _ _ _ ((t + 2) * L) L _ (omega arith) (link2 t (omega arith))
          (is2 t (L + t) refl (omega arith)) Is-L)

  is6 : (i : ℕ) → i ≡ 7 * L + 2 → Is i (L + 1)
  is6 i e = rw e (deduce _ _ _ 1 L _ (omega arith) after3.0 is0 Is-L)

  is3 : (t i e : ℕ) → i ≡ 4 * L + t → t < L → e ≡ 3 * (L * L) + L - 1 + (t + 1) * (L + 1) → Is i e
  is3 zero i e k l s =
      let at : i ≡ 4 * L = omega arith in
      rw at (
        deduce _ _ _ ((3 * L - 1 + 2) * L) L _ (sum (3 * L - 1) (omega arith)) after5.1.0
          (is2 (3 * L - 1) _ (omega arith) (omega arith)) Is-L)
    where
      sum : (n : ℕ) → n + 1 ≡ 3 * L → e ≡ (n + 2) * L + L
      sum n h = omega (arith, ap (λ (x : ℕ). x * L) h)
  is3 (suc t) i e k l s =
      let at : i ≡ 4 * L + t + 1 = omega arith in
      rw at (
        deduce _ _ _ (3 * (L * L) + L - 1 + (t + 1) * (L + 1)) (L + 1) _ (omega arith)
          (link3 t (omega arith)) (is3 t (4 * L + t) _ refl (omega arith) refl) (is6 _ refl))

  Is-end3 : Is (5 * L - 1) (4 * (L * L) + 2 * L - 1)
  Is-end3 = is3 (L - 1) _ _ (omega arith) (omega arith) (sum (L - 1) (omega arith))
    where
      sum : (n : ℕ) → n + 1 ≡ L → 4 * (L * L) + 2 * L - 1 ≡ 3 * (L * L) + L - 1 + (n + 1) * (L + 1)
      sum n h = omega (arith, ap (λ (x : ℕ). x * (L + 1)) h)

  is7 : (i : ℕ) → i ≡ 7 * L + 3 → Is i (6 * (L * L) + 4 * L - 1)
  is7 i e = rw e (
      deduce _ _ _ ((2 * L + 2) * L) (4 * (L * L) + 2 * L - 1) _ (omega arith) after5.1.1.1.0
        (is2 (2 * L) (3 * L) (omega arith) (omega arith)) Is-end3)

  is4 : (t i : ℕ) → i ≡ 5 * L + t → t < L + 1 → Is i (6 * (L * L) + 4 * L + t)
  is4 zero i e l =
      let at : i ≡ 5 * L = omega arith in
      rw at (deduce _ _ _ (6 * (L * L) + 4 * L - 1) 1 _ (omega arith) after5.1.1.0 (is7 _ refl) is0)
  is4 (suc t) i e l =
      let at : i ≡ 5 * L + t + 1 = omega arith in
      rw at (
        deduce _ _ _ 1 (6 * (L * L) + 4 * L + t) _ (omega arith) (link4 t (omega arith)) is0
          (is4 t (5 * L + t) refl (omega arith)))

  is8 : (i : ℕ) → i ≡ 7 * L + 4 → Is i (10 * (L * L) + 7 * L - 1)
  is8 i e = rw e (
      deduce _ _ _ (4 * (L * L) + 2 * L - 1) (6 * (L * L) + 4 * L + L) _ (omega arith)
        after5.1.1.1.1.1.0 Is-end3 (is4 L (6 * L) (omega arith) (omega arith)))

  is5 : (t i : ℕ) → i ≡ 6 * L + 1 + t → t < L + 1 → Is i (10 * (L * L) + 7 * L + t)
  is5 zero i e l =
      let at : i ≡ 6 * L + 1 = omega arith in
      rw at (
        deduce _ _ _ (10 * (L * L) + 7 * L - 1) 1 _ (omega arith) after5.1.1.1.1.0 (is8 _ refl) is0)
  is5 (suc t) i e l =
      let at : i ≡ 6 * L + 1 + t + 1 = omega arith in
      rw at (
        deduce _ _ _ 1 (10 * (L * L) + 7 * L + t) _ (omega arith) (link5 t (omega arith)) is0
          (is5 t (6 * L + 1 + t) refl (omega arith)))

  -- Every place holds what it holds in the encoding of the first element.
  same : (i : ℕ) → i < 7 * L + 5 → get_elem? input i ≡ get_elem? (add2basis_encode msg L) i
  same i h = elim (place L i h) [
    | in1 l ↦ is1 i i refl l ∙ sym (holds1 msg L i _ l refl)
    | in2 t e l ↦ is2 t i e l ∙ sym (holds2 msg L i t _ e l refl)
    | in3 t e l ↦ is3 t i _ e l refl ∙ sym (holds3 msg L i t _ e l refl)
    | in4 t e l ↦ is4 t i e l ∙ sym (holds4 msg L i t _ L_pos e l refl)
    | in5 t e l ↦ is5 t i e l ∙ sym (holds5 msg L i t _ L_pos e l refl)
    | in6 e ↦ is6 i e ∙ sym (holds6 msg L i e)
    | in7 e ↦ is7 i e ∙ sym (holds7 msg L i e)
    | in8 e ↦ is8 i e ∙ sym (holds8 msg L i e)
  ]

module _ {A : Type 0} ⦃z : ZzP A⦄ (L : ℕ) (L_pos : 0 < L) (input : List A) where
  -- For L > 0 and an input of 7 * L + 5 elements, the circuit evaluates to 0 with every vector of
  -- 7 * L + 4 coins exactly when the input is the encoding of some message.
  pub verify_format_iff :
      length input ≡ 7 * L + 5
      → ((coins : List A) → length coins ≡ 7 * L + 4 → verify_format coins input L ≡ some z.zero)
        ↔ ((msg : A) × (input ≡ add2basis_encode msg L))
  verify_format_iff size = (extract, accept)
    where
      extract :
          ((coins : List A) → length coins ≡ 7 * L + 4 → verify_format coins input L ≡ some z.zero)
          → (msg : A) × (input ≡ add2basis_encode msg L)
      extract accepted =
          let (msg, first) = get_elem?-some input 0 (omega arith) in
          (
            msg,
            eq_of_get_elem? input (add2basis_encode msg L)
                (size ∙ sym (length-add2basis_encode msg L))
                λ i h.
                  same input L L_pos msg first (constraints_forced input L L_pos size accepted) i
                    (omega arith),
          )

      accept :
          (msg : A) × (input ≡ add2basis_encode msg L)
          → (coins : List A) → length coins ≡ 7 * L + 4
          → verify_format coins input L ≡ some z.zero
      accept (msg, e) coins k = rw e (verify_format-add2basis_encode msg L L_pos coins k)
