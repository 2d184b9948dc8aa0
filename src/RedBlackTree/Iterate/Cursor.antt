-- ===== src/RedBlackTree/Iterate/Cursor.antt =====
-- red_black_tree.h: an iterator among the keys in order, and the walks of `GetSuccessor`.
use mathlib.Core.List.{append_assoc}
use mathlib.Core.Path.{subst}
use stud_stuff.Base.{
  ℕ, zero, suc, ◌≤◌, ◌<◌, true, false, List, [], ◌∷◌, ◌++◌, ◌≡◌, ◌≢◌, refl, sym, ◌∙◌, arith, ◌==◌,
  some, length, length-append,
}
use stud_stuff.RedBlackTree.Iterate.{go_down, go_up}
use stud_stuff.RedBlackTree.Keys.{whole, keys, after, depth, whole-branch}
use stud_stuff.RedBlackTree.Moves.{down, up_again}
use stud_stuff.RedBlackTree.Shape.{
  Shape, leaf, node, Way, top, step, at, above, count, count_up, Below, Above, Focus, at-ne,
  count-at,
}
use stud_stuff.RedBlackTree.{Color, left, right, nil, RedBlackTree}

module _ {ℓ} {K : Type ℓ} where
  -- The node that an iterator points to, with the keys from it on.
  pub data Cursor (s : RedBlackTree K) (ks : List K) : ℕ → List K → Type ℓ where
    done : Cursor s ks nil []
    here :
        (p : ℕ) (c : Color) (k : K) (l r : Shape K) (up : Way K) (rest : List K)
        → Focus s (node p c k l r) up
        → whole (node p c k l r) up ≡ ks
        → keys r ++ after up ≡ rest
        → Cursor s ks p (k ∷ rest)

  pub go_down-Cursor :
      (s : RedBlackTree K) (ks : List K) (fuel a : ℕ) (c : Color) (k : K) (l r : Shape K)
      (up : Way K)
      → Focus s (node a c k l r) up
      → whole (node a c k l r) up ≡ ks
      → length (keys (node a c k l r)) ≤ fuel
      → (p : ℕ) × (go_down fuel left s nil a ≡ some p)
        × Cursor s ks p (keys (node a c k l r) ++ after up)
  unfolding go_down keys Below after
  go_down-Cursor s ks zero a c k l r up f eq room =
      absurd (omega (arith, length-append (keys l) (k ∷ keys r)))
  go_down-Cursor s ks (suc fuel) a c k leaf r up f eq room =
      let test : (s.left_of a == nil) ≡ true = ground (arith, f.below.0.to_left) in
      (a, rw test refl, here a c k leaf r up (keys r ++ after up) f eq refl)
  go_down-Cursor s ks (suc fuel) a c k (node la lc lk ll lr) r up f eq room =
      let t = node la lc lk ll lr in
      let lower = down left s a c k t r up f in
      let e = f.below.0.to_left in
      let test : (la == nil) ≡ false = ground (arith, lower.below.0.not_nil) in
      let (p, ran, cursor) =
        go_down-Cursor s ks fuel la lc lk ll lr (step left a c k r up) lower
          (sym (whole-branch left a c k t r up) ∙ eq)
          (omega (arith, length-append (keys t) (k ∷ keys r))) in
      (
        p,
        rw (e, test) ran,
        subst (Cursor s ks p) (sym (append_assoc (keys t) (k ∷ keys r) (after up))) cursor,
      )

  pub go_up-Cursor :
      (s : RedBlackTree K) (ks : List K) (fuel : ℕ) (t : Shape K) (up : Way K)
      → at t ≢ nil
      → Focus s t up
      → whole t up ≡ ks
      → depth up < fuel
      → (p : ℕ) × (go_up fuel right s nil (at t) (above up) ≡ some p) × Cursor s ks p (after up)
  unfolding go_up after depth Above count count_up
  go_up-Cursor s ks zero t up some_t f eq room = absurd (omega arith)
  go_up-Cursor s ks (suc fuel) t top some_t f eq room = (nil, refl, done)
  go_up-Cursor s ks (suc fuel) t (step left a c k other up) some_t f eq room =
      let h = f.way.0 in
      let once = f.once in
      let some_a : (a == nil) ≡ false = ground (arith, h.not_nil) in
      let ne : at other ≢ at t =
        at-ne other (at t) some_t (omega (arith, once (at t), count-at t some_t)) in
      let test : (at t == at other) ≡ false = ground arith in
      (
        a,
        rw (some_a, h.to_right, test) refl,
        here a c k t other up (keys other ++ after up) (up_again left s a c k t other up f)
            (whole-branch left a c k t other up ∙ eq) refl,
      )
  go_up-Cursor s ks (suc fuel) t (step right a c k other up) some_t f eq room =
      let h = f.way.0 in
      let some_a : (a == nil) ≡ false = ground (arith, h.not_nil) in
      let test : (at t == at t) ≡ true = ground arith in
      rw (some_a, h.to_right, test, h.parent)
        (go_up-Cursor s ks fuel (node a c k other t) up h.not_nil
          (up_again right s a c k t other up f) (whole-branch right a c k t other up ∙ eq)
          (omega arith))
