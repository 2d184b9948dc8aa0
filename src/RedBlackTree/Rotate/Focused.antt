-- ===== src/RedBlackTree/Rotate/Focused.antt =====
-- red_black_tree.h: `RotateLeft` and `RotateRight` on the shape of the tree.
use stud_stuff.Base.{ℕ, ◌+◌, ◌≤◌, ◌<◌, ◌≡◌, ◌≢◌, ◌∙◌, arith, ◌==◌}
use stud_stuff.RedBlackTree.Shape.Frames.{Same, Below-Same, Below-reparent}
use stud_stuff.RedBlackTree.Shape.{
  Shape, Way, branch, Below, at, above, one_if, count, count_up, Above, Focus, Below-branch,
  branch-Below, Holds-child, child-Holds, count-branch, count-at, count_up-above, count-Below,
  count_up-Above,
}
use stud_stuff.RedBlackTree.{Color, Side, nil, RedBlackTree, rotate}
use stud_stuff.RedBlackTree.Rotate.{rotate-Turned, rotate-Above}

module _ {ℓ} {K : Type ℓ} where
  -- The nodes that a rotation meets are distinct.
  record Apart (x y : ℕ) (a b c : Shape K) (up : Way K) : Type ℓ where
    total :
        (q : ℕ)
        → one_if (q == x) + count q a + (one_if (q == y) + count q b + count q c) + count_up q up
          ≤ 1
    xy : x ≢ y
    bx : at b ≢ x
    by : at b ≢ y
    px : above up ≢ x
    py : above up ≢ y
    bp : at b ≢ nil → at b ≢ above up
    away : (q : ℕ) → 0 < count q a + count q c + count_up q up → (q ≢ x) × (q ≢ y) × (q ≢ at b)
    aside : (q : ℕ) → 0 < count q a + count q c → q ≢ above up
    inner : (q : ℕ) → 0 < count q b → (q ≢ x) × (q ≢ y) × (q ≢ above up)

  module _ (s : RedBlackTree K) (x y : ℕ) (a b c : Shape K) (up : Way K) where
    Apart-of :
        x ≢ nil
        → y ≢ nil
        → Below s x a
        → Below s y b
        → Below s y c
        → Above s x up
        → ((q : ℕ)
            → one_if (q == x)
                + count q a
                + (one_if (q == y) + count q b + count q c)
                + count_up q up
              ≤ 1)
        → Apart x y a b c up
    Apart-of some_x some_y ha hb hc way total =
        let no_a = count-Below s a x ha in
        let no_c = count-Below s c y hc in
        let no_up = count_up-Above s up x way in
        record {
          total = total;
          xy = λ e. ground (arith, total x);
          bx = λ e. ground (arith, total x, count-at b);
          by = λ e. ground (arith, total y, count-at b);
          px = λ e. ground (arith, total x, count_up-above up);
          py = λ e. ground (arith, total y, count_up-above up);
          bp = λ h e. ground (arith, total (at b), count-at b, count_up-above up);
          away = λ q i. (
            λ e. ground (arith, total q),
            λ e. ground (arith, total q),
            λ e. ground (arith, total q, count-at b),
          );
          aside = λ q i e. ground (arith, total q, count_up-above up);
          inner = λ q i. (
            λ e. ground (arith, total q),
            λ e. ground (arith, total q),
            λ e. ground (arith, total q, count_up-above up, count-Below s b y hb),
          );
        }

  module _ (side : Side) (x y : ℕ) (cx cy : Color) (kx ky : K) (a b c : Shape K) (q : ℕ) where
    -- how often the two shapes meet an address
    count-lower :
        count q (branch side x cx kx a (branch side y cy ky b c))
        ≡ one_if (q == x) + count q a + (one_if (q == y) + count q b + count q c)
    count-lower = omega (
      arith,
      count-branch q side x cx kx a (branch side y cy ky b c),
      count-branch q side y cy ky b c,
    )

    count-upper :
        count q (branch side y cy ky (branch side x cx kx a b) c)
        ≡ one_if (q == x) + count q a + (one_if (q == y) + count q b + count q c)
    count-upper = omega (
      arith,
      count-branch q side y cy ky (branch side x cx kx a b) c,
      count-branch q side x cx kx a b,
    )

  module _ (side : Side) (s : RedBlackTree K) (x y : ℕ) (cx cy : Color) (kx ky : K)
      (a b c : Shape K) (up : Way K) where
    -- A rotation at `x` lifts `y` to its place, and hands `b` from `y` to `x`.
    pub rotate-Focus :
        Focus s (branch side x cx kx a (branch side y cy ky b c)) up
        → Focus (rotate side s x) (branch side y cy ky (branch side x cx kx a b) c) up
    rotate-Focus f =
        let (hx, ha, below_y) = Below-branch side a (branch side y cy ky b c) f.below in
        let (hy, hb, hc) = Below-branch side b c below_y in
        let (near_x, far_x) = Holds-child side (at a) y hx in
        let (near_y, far_y) = Holds-child side (at b) (at c) hy in
        let lower = count-lower side x y cx cy kx ky a b c in
        let upper = count-upper side x y cx cy kx ky a b c in
        let d =
          Apart-of s x y a b c up hx.not_nil hy.not_nil ha hb hc f.way
            (λ q. omega (arith, lower q, f.once q)) in
        let t =
          rotate-Turned side s x y (at b) (above up) far_x near_y hx.parent d.xy d.bx d.by d.px d.py
            d.bp in
        let kept : (q : ℕ) → 0 < count q a + count q c → Same s (rotate side s x) q =
          λ q i. let (qx, qy, qb) = d.away q (omega arith) in t.same q qx qy qb (d.aside q i) in
        record {
          below =
              branch-Below side (branch side x cx kx a b) c
                (child-Holds side x (at c) hy.not_nil (t.same_alive y ∙ hy.living)
                  (t.same_color y ∙ hy.color) (t.same_data y ∙ hy.key) t.parent_y t.near_y
                  (t.far_y ∙ far_y))
                (branch-Below side a b
                  (child-Holds side (at a) (at b) hx.not_nil (t.same_alive x ∙ hx.living)
                    (t.same_color x ∙ hx.color) (t.same_data x ∙ hx.key) t.parent_x
                    (t.near_x ∙ near_x) t.far_x)
                  (Below-Same a x (λ q i. kept q (omega arith)) ha)
                  (Below-reparent b y x (λ q. omega (arith, d.total q))
                    (λ q i n. let (qx, qy, qp) = d.inner q i in t.same q qx qy n qp)
                    (λ n. (t.same_b n, t.parent_b n)) hb))
                (Below-Same c y (λ q i. kept q (omega arith)) hc);
          way =
              rotate-Above side s x y (at b) up far_x near_y hx.parent hx.not_nil d.xy d.bx f.way
                (λ q. omega (arith, d.total q)) (let at_x = d.total x in ground arith)
                (λ q i. d.away q (omega arith));
          once = λ q. omega (arith, upper q, d.total q);
          sentinel = t.same_color nil ∙ f.sentinel;
          used = λ q i. rw t.same_next (f.used q (omega (arith, lower q, upper q)));
        }
