-- ===== src/RedBlackTree/Erase/Loop.antt =====
-- red_black_tree.h: the loop of `RemoveFixup`.
use mathlib.Core.List.{append-nil}
use mathlib.Core.Path.{subst}
use stud_stuff.Base.{
  ℕ, zero, suc, ◌<◌, Bool, true, false, not, ◌&&◌, List, some, ◌≡◌, ◌≢◌, refl, sym, ◌∙◌, arith,
  ◌==◌, inl,
}
use stud_stuff.RedBlackTree.Balance.{color_at, Balanced, Fits}
use stud_stuff.RedBlackTree.Erase.Fixup.{any_sibling, Fits-Balanced}
use stud_stuff.RedBlackTree.Erase.Lacking.{Loose, Loose-Balanced, rounds, Lacking}
use stud_stuff.RedBlackTree.Erase.{remove_case, remove_round, remove_fixup}
use stud_stuff.RedBlackTree.Insert.Loop.{Coloured, climb, blacken-Focus, root-at}
use stud_stuff.RedBlackTree.Insert.Rounds.{color_of-at}
use stud_stuff.RedBlackTree.Keys.{whole, keys, depth, before, after, whole-branch}
use stud_stuff.RedBlackTree.Moves.{up_again, set_color-Focus}
use stud_stuff.RedBlackTree.Shape.{
  Shape, leaf, node, Way, top, step, at, above, pick, count_up, Below, Above, Focus, count-at,
  count_up-Above,
}
use stud_stuff.RedBlackTree.{
  Color, red, black, Side, left, right, nil, is_red, RedBlackTree, set_color,
}

module _ {ℓ} {K : Type ℓ} where
  -- a tree of black height above 0 has a root
  Balanced-root :
      (s : RedBlackTree K) (n up : ℕ) (t : Shape K) → Balanced (suc n) t → Below s up t → at t ≢ nil
  unfolding Balanced Below
  Balanced-root s n up leaf b h = absurd (omega (arith, b))
  Balanced-root s n up (node a c k l r) b h = h.0.not_nil

  -- the root is on the way
  root_on_way :
      (s : RedBlackTree K) (hole : ℕ) (side : Side) (p : ℕ) (c : Color) (k : K) (t : Shape K)
      (up : Way K)
      → Above s hole (step side p c k t up)
      → 0 < count_up s.root (step side p c k t up)
  unfolding Above count_up
  root_on_way s hole side p c k t top h = ground (arith, h.2.root_eq)
  root_on_way s hole side p c k t (step side' p' c' k' t' up) h =
      omega (arith, root_on_way s p side' p' c' k' t' up h.2)

  module _ (s : RedBlackTree K) (side : Side) (p : ℕ) (c : Color) (k : K) (t sib : Shape K)
      (up : Way K) (f : Focus s t (step side p c k sib up)) where
    not_root : at t ≢ s.root
    not_root e =
        let on_way = root_on_way s (at t) side p c k sib up f.way in
        let off_way = count_up-Above s (step side p c k sib up) (at t) f.way in
        ground (arith, e, f.once s.root, count-at t)

    apart : (n : ℕ) → Balanced (suc n) sib → at sib ≢ at t
    unfolding Above count_up
    apart n b e =
        let some_sib = Balanced-root s n p sib b f.way.1 in
        ground (arith, e, f.once (at sib), count-at sib, count-at t)

    round_case :
        (n : ℕ)
        → Balanced (suc n) sib
        → s.parent_of (at t) ≡ p
        → remove_round s (at t) ≡ remove_case side s (at t)
    unfolding remove_round Above
    round_case n b linked = by_side side f.way.0.to_left
      where
        by_side :
            (side' : Side)
            → s.left_of p ≡ pick side' (at t) (at sib)
            → remove_round s (at t) ≡ remove_case side' s (at t)
        by_side left e =
            let test : (at t == at t) ≡ true = ground arith in rw (linked, e, test) refl
        by_side right e =
            let ne = apart n b in
            let test : (at t == at sib) ≡ false = ground (arith, ne) in rw (linked, e, test) refl

    remove_round-Lacking :
        (n : ℕ) (ks : List K) (fuel : ℕ)
        → Balanced n t
        → color_at t ≡ black
        → s.parent_of (at t) ≡ p
        → Fits (suc n) (step side p c k sib up)
        → depth up < fuel
        → whole t (step side p c k sib up) ≡ ks
        → let r = remove_round s (at t) in Lacking r.0 r.1 ks fuel
    remove_round-Lacking n ks fuel b dark linked fits room e =
        rw (round_case n (Fits-Balanced (suc n) side p c k sib up fits) linked) (
          any_sibling s side p k t up n ks fuel b dark linked room c sib fits
            (up_again side s p c k t sib up f) (whole-branch side p c k t sib up ∙ e))

  -- the loop ends at a red node
  stop_red :
      (s : RedBlackTree K) (a : ℕ) (k : K) (l r : Shape K) (up : Way K) (n : ℕ) (ks : List K)
      → Balanced n l × Balanced n r
      → Focus s (node a red k l r) up
      → Fits (suc n) up
      → whole (node a red k l r) up ≡ ks
      → Coloured (set_color s a black) ks
  unfolding Balanced whole keys
  stop_red s a k l r up n ks b f fits e =
      climb (set_color s a black) (node a black k l r) up (suc n) ks
        (set_color-Focus s a red black k l r up f) b fits (inl refl) e

  -- or at the root
  stop_root :
      (s : RedBlackTree K) (t : Shape K) (n : ℕ) (ks : List K)
      → Balanced n t
      → color_at t ≡ black
      → Focus s t top
      → whole t top ≡ ks
      → Coloured (set_color s (at t) black) ks
  unfolding whole before after
  stop_root s t n ks b dark f e = record {
    tree = t;
    height = n;
    focus = blacken-Focus s t (at t) refl dark f;
    balanced = b;
    root_black = dark;
    same_keys = sym (append-nil (keys t)) ∙ e;
  }

  is_black-at :
      (s : RedBlackTree K) (t : Shape K) (up : Way K)
      → Focus s t up
      → color_at t ≡ black
      → is_red (s.color_of (at t)) ≡ false
  is_black-at s t up f dark = rw (color_of-at s t (above up) f.below f.sentinel, dark) refl

  -- the condition of the loop
  ends_root :
      (fuel : ℕ) (s : RedBlackTree K) (x : ℕ)
      → s.root ≡ x
      → remove_fixup (suc fuel) s x ≡ some (set_color s x black)
  unfolding remove_fixup
  ends_root fuel s x e = let test : (x == x) ≡ true = ground arith in rw (e, test) refl

  ends_red :
      (fuel : ℕ) (s : RedBlackTree K) (x : ℕ)
      → s.color_of x ≡ red
      → remove_fixup (suc fuel) s x ≡ some (set_color s x black)
  unfolding remove_fixup
  ends_red fuel s x e = rw (e, with_false (not (x == s.root))) refl
    where
      with_false : (b : Bool) → (b && false) ≡ false
      with_false true = refl
      with_false false = refl

  goes_on :
      (fuel : ℕ) (s : RedBlackTree K) (x : ℕ)
      → x ≢ s.root
      → is_red (s.color_of x) ≡ false
      → remove_fixup (suc fuel) s x ≡ remove_fixup fuel (remove_round s x).0 (remove_round s x).1
  unfolding remove_fixup
  goes_on fuel s x e c = let test : (x == s.root) ≡ false = ground (arith, e) in rw (test, c) refl

  module _ (fuel : ℕ) (s : RedBlackTree K) (ks : List K) (n : ℕ)
      (again : (s' : RedBlackTree K) (x' : ℕ)
        → Lacking s' x' ks fuel
        → (s'' : RedBlackTree K) × (remove_fixup fuel s' x' ≡ some s'') × Coloured s'' ks) where
    -- a round at a black node that is not the root
    go_on :
        (t : Shape K) (side : Side) (p : ℕ) (c : Color) (k : K) (sib : Shape K) (up : Way K)
        → Focus s t (step side p c k sib up)
        → (p ≢ nil → s.parent_of (at t) ≡ p)
        → Loose n t
        → color_at t ≡ black
        → Fits (suc n) (step side p c k sib up)
        → whole t (step side p c k sib up) ≡ ks
        → depth up < fuel
        → (s' : RedBlackTree K) × (remove_fixup (suc fuel) s (at t) ≡ some s') × Coloured s' ks
    unfolding Above
    go_on t side p c k sib up f linked b dark fits e room =
        rw
          (goes_on fuel s (at t) (not_root s side p c k t sib up f)
            (is_black-at s t (step side p c k sib up) f dark))
          (again _ _ (
            remove_round-Lacking s side p c k t sib up f n ks fuel (Loose-Balanced n t b dark) dark
              (linked f.way.0.not_nil) fits room e))

    round_or_end :
        (t : Shape K) (up : Way K)
        → Focus s t up
        → (above up ≢ nil → s.parent_of (at t) ≡ above up)
        → Loose n t
        → Fits (suc n) up
        → whole t up ≡ ks
        → rounds t up < suc fuel
        → (s' : RedBlackTree K) × (remove_fixup (suc fuel) s (at t) ≡ some s') × Coloured s' ks
    unfolding rounds depth Loose Below
    round_or_end (node a red k l r) up f linked b fits e room =
        (_, ends_red fuel s a f.below.0.color, stop_red s a k l r up n ks b f fits e)
    round_or_end leaf top f linked b fits e room = (
      _,
      ends_root fuel s nil (root-at s leaf f),
      stop_root s leaf n ks (Loose-Balanced n leaf b refl) refl f e,
    )
    round_or_end (node a black k l r) top f linked b fits e room = (
      _,
      ends_root fuel s a (root-at s (node a black k l r) f),
      stop_root s (node a black k l r) n ks (Loose-Balanced n (node a black k l r) b refl) refl f e,
    )
    round_or_end leaf (step side p c kp sib up) f linked b fits e room =
        go_on leaf side p c kp sib up f linked b refl fits e (omega (arith, room))
    round_or_end (node a black k l r) (step side p c kp sib up) f linked b fits e room =
        go_on (node a black k l r) side p c kp sib up f linked b refl fits e (omega (arith, room))

  -- `RemoveFixup` goes through, and leaves a red-black tree.
  pub remove_fixup-Coloured :
      (fuel : ℕ) (s : RedBlackTree K) (x : ℕ) (ks : List K)
      → Lacking s x ks fuel
      → (s' : RedBlackTree K) × (remove_fixup fuel s x ≡ some s') × Coloured s' ks
  remove_fixup-Coloured zero s x ks m = absurd (omega (arith, m.enough))
  remove_fixup-Coloured (suc fuel) s x ks m =
      subst (λ z. (s' : RedBlackTree K) × (remove_fixup (suc fuel) s z ≡ some s') × Coloured s' ks)
        (sym m.here)
        (round_or_end fuel s ks m.height (λ s' x' m'. remove_fixup-Coloured fuel s' x' ks m') m.tree
          m.up m.focus m.linked m.loose m.fits m.same_keys m.enough)
