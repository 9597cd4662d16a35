-- ===== src/Parser/DepthBounds.antt =====
-- What `validateExpressionDepth` accepts are the trees of a bounded height.
use Prim.Native.Nat.{max}
use simp.Base.{ℕ, suc, ◌+◌, ◌≤◌, ltb, arith, ◌≡◌, refl, false, ◌↔◌}
use simp.Ast.Expressions.{Expression, node, Child, absent, present, Expressions, nil, cons}
use simp.Parser.Verdict.{
  accepted, Yields, yields, refuses, Yields-if, Yields-bind, Yields-accepted, Yields-map,
}
use simp.Parser.Depth.{validate_expression_depth, validate_child, validate_arguments}

-- The number of nodes on the longest way down.
unfoldable mutual
  pub height : Expression → ℕ
  height (node a l r es) = suc (max (height_child l) (max (height_child r) (height_arguments es)))

  height_child : Child → ℕ
  height_child absent = 0
  height_child (present e) = height e

  height_arguments : Expressions → ℕ
  height_arguments nil = 0
  height_arguments (cons e es) = max (height e) (height_arguments es)

ltb-false : (a b : ℕ) → ltb a b ≡ false → b ≤ a
ltb-false a b h = ground arith

mutual
  unfolding validate_expression_depth height

  depth-Yields :
      (e : Expression) (d : ℕ) → Yields (λ _. height e + d ≤ 129) (validate_expression_depth e d)
  depth-Yields (node a l r es) d =
      Yields-if (ltb 128 d) (λ _. refuses)
        λ h. Yields-bind (child-Yields l (suc d)) λ _ hl.
          Yields-bind (child-Yields r (suc d)) λ _ hr.
            Yields-map (arguments-Yields es (suc d))
              λ _ he. omega (arith, hl, hr, he, ltb-false 128 d h)

  child-Yields :
      (c : Child) (d : ℕ) → Yields (λ _. height_child c + d ≤ max d 129) (validate_child c d)
  child-Yields absent d = yields (omega arith)
  child-Yields (present e) d = Yields-map (depth-Yields e d) λ _ h. omega (arith, h)

  arguments-Yields :
      (es : Expressions) (d : ℕ)
      → Yields (λ _. height_arguments es + d ≤ max d 129) (validate_arguments es d)
  arguments-Yields nil d = yields (omega arith)
  arguments-Yields (cons e es) d =
      Yields-bind (depth-Yields e d)
        λ _ h. Yields-map (arguments-Yields es d) λ _ hs. omega (arith, h, hs)

not_ltb : (a b : ℕ) → b ≤ a → ltb a b ≡ false
not_ltb a b h = ground arith

mutual
  unfolding validate_expression_depth height

  depth_accepts :
      (e : Expression) (d : ℕ) → height e + d ≤ 129 → validate_expression_depth e d ≡ accepted tt
  depth_accepts (node a l r es) d h =
      rw
        (
          not_ltb 128 d (omega (arith, h)),
          child_accepts l (suc d) (omega (arith, h)),
          child_accepts r (suc d) (omega (arith, h)),
          arguments_accept es (suc d) (omega (arith, h)),
        )
        refl

  child_accepts : (c : Child) (d : ℕ) → height_child c + d ≤ 129 → validate_child c d ≡ accepted tt
  child_accepts absent d h = refl
  child_accepts (present e) d h = depth_accepts e d h

  arguments_accept :
      (es : Expressions) (d : ℕ)
      → height_arguments es + d ≤ 129
      → validate_arguments es d ≡ accepted tt
  arguments_accept nil d h = refl
  arguments_accept (cons e es) d h =
      rw (depth_accepts e d (omega (arith, h)), arguments_accept es d (omega (arith, h))) refl

-- The check from depth 1 accepts exactly the trees with at most 128 nodes on each way down.
pub validate_expression_depth_iff :
    (e : Expression) → (validate_expression_depth e 1 ≡ accepted tt) ↔ (height e ≤ 128)
validate_expression_depth_iff e = (
  λ h. omega (arith, Yields-accepted (depth-Yields e 1) h),
  λ h. depth_accepts e 1 (omega (arith, h)),
)
