-- ===== src/RedBlackTree/Moves.antt =====
-- red_black_tree.h: the same heap seen from another node, and a change of colour.
use mathlib.Core.Path.{subst}
use stud_stuff.Base.{ℕ, ◌+◌, ◌<◌, ◌≡◌, ◌≢◌, refl, arith}
use stud_stuff.RedBlackTree.Shape.Frames.{Same, Below-Same, Above-Same}
use stud_stuff.RedBlackTree.Shape.{
  Shape, node, Way, step, branch, count, count_up, Below, Above, Focus, Below-branch, branch-Below,
  count-branch,
}
use stud_stuff.RedBlackTree.{Color, Side, RedBlackTree, set_color}

module _ {ℓ} {K : Type ℓ} where
  module _ (side : Side) (s : RedBlackTree K) (a : ℕ) (c : Color) (k : K) (t other : Shape K)
      (up : Way K) where
    counts :
        (q : ℕ)
        → count q (branch side a c k t other) + count_up q up
          ≡ count q t + count_up q (step side a c k other up)
    unfolding count_up
    counts q = omega (arith, count-branch q side a c k t other)

    -- down to the subtree at a side, and up again
    pub down : Focus s (branch side a c k t other) up → Focus s t (step side a c k other up)
    unfolding Above
    down f =
        let (h, near, far) = Below-branch side t other f.below in
        record {
          below = near;
          way = (h, far, f.way);
          once = λ q. omega (arith, counts q, f.once q);
          sentinel = f.sentinel;
          used = λ q i. f.used q (omega (arith, counts q));
        }

    pub up_again : Focus s t (step side a c k other up) → Focus s (branch side a c k t other) up
    unfolding Above
    up_again f =
        let (h, far, way) = f.way in
        record {
          below = branch-Below side t other h f.below far;
          way = way;
          once = λ q. omega (arith, counts q, f.once q);
          sentinel = f.sentinel;
          used = λ q i. f.used q (omega (arith, counts q));
        }

  set_color-Same : (s : RedBlackTree K) (a q : ℕ) (c : Color) → q ≢ a → Same s (set_color s a c) q
  set_color-Same s a q c h = ground arith

  -- the node in focus gets another colour
  pub set_color-Focus :
      (s : RedBlackTree K) (a : ℕ) (c d : Color) (k : K) (l r : Shape K) (up : Way K)
      → Focus s (node a c k l r) up
      → Focus (set_color s a d) (node a d k l r) up
  unfolding Below count
  set_color-Focus s a c d k l r up f =
      let (h, hl, hr) = f.below in
      let once = f.once in
      let apart : (q : ℕ) → 0 < count q l + count q r + count_up q up → q ≢ a =
        λ q i e. ground (arith, once a) in
      record {
        below = (
          ground arith,
          Below-Same l a (λ q i. set_color-Same s a q d (apart q (omega arith))) hl,
          Below-Same r a (λ q i. set_color-Same s a q d (apart q (omega arith))) hr,
        );
        way = Above-Same up a (λ q i. set_color-Same s a q d (apart q (omega arith))) refl f.way;
        once = once;
        sentinel = ground (arith, h.not_nil);
        used = f.used;
      }

  pub reshape :
      (s : RedBlackTree K) (up : Way K) {t t' : Shape K} → t ≡ t' → Focus s t up → Focus s t' up
  reshape s up e f = subst (λ z. Focus s z up) e f
