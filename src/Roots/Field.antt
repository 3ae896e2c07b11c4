-- ===== src/Roots/Field.antt =====
-- What root_finding.h uses of NTL beside the interface of secretsharing.h: the inverse of an
-- element, the derivative, the product with an element, exact division (`divide`, `none` where it
-- gives 0) and NTL's own `FindRoots`.
use ab_prototype.Prelude.{◌≡◌, ◌≢◌, Option, List}
use ab_prototype.ZzP.{ZzP, ◌⊗◌}
use ab_prototype.SecretSharing.{Poly}

pub record Inverse (A : Type 0) ⦃z : ZzP A⦄ : Type 0 where
  pub inv : A → A
  pub mul-inv : (a : A) → a ≢ z.zero → a ⊗ inv a ≡ z.one

pub record PolyRoots (A P : Type 0) ⦃z : ZzP A⦄ ⦃p : Poly A P⦄ : Type 0 where
  pub diff : P → P
  pub scale : A → P → P
  pub divide : P → P → Option P
  pub ntl_find_roots : P → List A
