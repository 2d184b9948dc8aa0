-- ===== src/RedBlackTree/Shape/Frames.antt =====
-- red_black_tree.h: what a change of the heap leaves of a subtree and of a way up.
use stud_stuff.Base.{ℕ, ◌≤◌, ◌<◌, ◌≡◌, ◌≢◌, arith}
use stud_stuff.RedBlackTree.{Color, nil, RedBlackTree}
use stud_stuff.RedBlackTree.Shape.{
  Shape, leaf, node, Way, top, step, at, count, count_up, Holds, Below, Above,
}

module _ {ℓ} {K : Type ℓ} where
  -- The node at `q` is as before, but for its parent, and with it.
  pub record SameBut (s s' : RedBlackTree K) (q : ℕ) : Type ℓ where
    pub same_alive : s'.alive q ≡ s.alive q
    pub same_color : s'.color_of q ≡ s.color_of q
    pub same_data : s'.data_of q ≡ s.data_of q
    pub same_left : s'.left_of q ≡ s.left_of q
    pub same_right : s'.right_of q ≡ s.right_of q

  pub record Same (s s' : RedBlackTree K) (q : ℕ) : Type ℓ where
    pub but : SameBut s s' q
    pub same_parent : s'.parent_of q ≡ s.parent_of q

  module _ {s s' : RedBlackTree K} where
    pub Holds-Same :
        {a : ℕ} {c : Color} {k : K} {up l r : ℕ}
        → Holds s a c k up l r
        → Same s s' a
        → Holds s' a c k up l r
    Holds-Same h e = ground arith

    pub Below-Same :
        (t : Shape K) (up : ℕ)
        → ((q : ℕ) → 0 < count q t → Same s s' q)
        → Below s up t
        → Below s' up t
    unfolding Below count
    Below-Same leaf up same h = tt
    Below-Same (node a c k l r) up same h = (
      Holds-Same h.0 (same a (ground arith)),
      Below-Same l a (λ q i. same q (omega arith)) h.1,
      Below-Same r a (λ q i. same q (omega arith)) h.2,
    )

    pub Above-Same :
        (up : Way K) (hole : ℕ)
        → ((q : ℕ) → 0 < count_up q up → Same s s' q)
        → s'.root ≡ s.root
        → Above s hole up
        → Above s' hole up
    unfolding Above count_up
    Above-Same top hole same e h = ground arith
    Above-Same (step side a c k t up) hole same e h = (
      Holds-Same h.0 (same a (ground arith)),
      Below-Same t a (λ q i. same q (omega arith)) h.1,
      Above-Same up a (λ q i. same q (omega arith)) e h.2,
    )

    -- The subtree goes over to another parent.
    pub Below-reparent :
        (t : Shape K) (up v : ℕ)
        → ((q : ℕ) → count q t ≤ 1)
        → ((q : ℕ) → 0 < count q t → q ≢ at t → Same s s' q)
        → (at t ≢ nil → SameBut s s' (at t) × (s'.parent_of (at t) ≡ v))
        → Below s up t
        → Below s' v t
    unfolding Below count
    Below-reparent leaf up v once same new h = tt
    Below-reparent (node a c k l r) up v once same new h =
        let there = new h.0.not_nil in
        (
          ground arith,
          Below-Same l a (λ q i. same q (omega arith) (λ e. ground (arith, once a))) h.1,
          Below-Same r a (λ q i. same q (omega arith) (λ e. ground (arith, once a))) h.2,
        )
