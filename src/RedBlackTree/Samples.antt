-- ===== src/RedBlackTree/Samples.antt =====
-- red_black_tree.h: numbers as keys, and two trees of them.
use stud_stuff.Base.{ℕ, List, [], ◌∷◌, some, true, false, ◌≡◌, refl, arith, ltb, ◌==◌, ==_iff, not}
use stud_stuff.RedBlackTree.Iterate.{Equality}
use stud_stuff.RedBlackTree.Balance.{Balanced}
use stud_stuff.RedBlackTree.Erase.Places.{plug, Focus-plug}
use stud_stuff.RedBlackTree.Insert.Link.{planted, planted-Focus, linked, linked-Focus}
use stud_stuff.RedBlackTree.Keys.{keys}
use stud_stuff.RedBlackTree.Moves.{down}
use stud_stuff.RedBlackTree.Order.{Sorted}
use stud_stuff.RedBlackTree.Shape.{Focus, leaf, node, top, step}
use stud_stuff.RedBlackTree.History.{Call, insert_call, described, run, find_node-run}
use stud_stuff.RedBlackTree.Insert.Inserts.{IsValid}
use stud_stuff.RedBlackTree.Insert.{new_node}
use stud_stuff.RedBlackTree.Search.{find_node}
use stud_stuff.RedBlackTree.{left, right, red, black, nil, Compare, RedBlackTree, new}

pub ltb_irrefl : (a : ℕ) → ltb a a ≡ false
ltb_irrefl a = ground arith

pub ltb_trans : (a b c : ℕ) → ltb a b ≡ true → ltb b c ≡ true → ltb a c ≡ true
ltb_trans a b c h g = ground arith

pub ltb_cover : (a b c : ℕ) → ltb a c ≡ true → ltb b c ≡ false → ltb a b ≡ true
ltb_cover a b c h g = ground arith

instance abbrev pub number_order : Compare ℕ
number_order = record {
  less = ltb;
  default = 0;
  less_irrefl = ltb_irrefl;
  less_trans = ltb_trans;
  less_cover = ltb_cover;
}

instance abbrev pub number_equality : Equality ℕ
number_equality = record { equal = ◌==◌; equal_sound = λ a b. (==_iff a b).0 }

abbrev pub calls : List (Call ℕ)
calls = insert_call 10 ∷ insert_call 20 ∷ insert_call 30 ∷ insert_call 15 ∷ []

-- The tree that a run of insertions builds, its keys and why it is valid.
abbrev pub built :
    (s : RedBlackTree ℕ) × (run new calls ≡ some s)
    × ((ks : List ℕ) × IsValid s ks)
    × ((p : ℕ) × (find_node s 15 ≡ some p) × ((p == nil) ≡ not (described (λ a. false) calls 15)))
built = find_node-run calls 15

abbrev pub tree : RedBlackTree ℕ
tree = built.0

abbrev pub tree_keys : List ℕ
tree_keys = built.2.0

pub tree-IsValid : IsValid tree tree_keys
tree-IsValid = built.2.1

-- A tree of three nodes, and why it is valid.
abbrev pub one : RedBlackTree ℕ
one = planted new 20

abbrev pub two : RedBlackTree ℕ
two = linked left one 10 1

abbrev pub three : RedBlackTree ℕ
three = linked right two 30 1

one-Focus : Focus one (node 1 black 20 leaf leaf) top
unfolding new
one-Focus = planted-Focus new 20 (λ e. omega (arith, e)) refl

two-Focus : Focus two (node 1 black 20 (node 2 red 10 leaf leaf) leaf) top
unfolding plug new new_node
two-Focus = Focus-plug two (node 2 red 10 leaf leaf) (step left 1 black 20 leaf top) (
    linked-Focus left one 10 1 black 20 leaf top (λ e. omega (arith, e))
      (down left one 1 black 20 leaf leaf top one-Focus))

pub three-Focus :
    Focus three (node 1 black 20 (node 2 red 10 leaf leaf) (node 3 red 30 leaf leaf)) top
unfolding plug new new_node linked
three-Focus =
    Focus-plug three (node 3 red 30 leaf leaf) (step right 1 black 20 (node 2 red 10 leaf leaf) top)
      (linked-Focus right two 30 1 black 20 (node 2 red 10 leaf leaf) top (λ e. omega (arith, e))
        (down right two 1 black 20 leaf (node 2 red 10 leaf leaf) top two-Focus))

pub three-IsValid : IsValid three (10 ∷ 20 ∷ 30 ∷ [])
unfolding Balanced keys Sorted new new_node linked
three-IsValid = record {
  coloured = record {
    tree = node 1 black 20 (node 2 red 10 leaf leaf) (node 3 red 30 leaf leaf);
    height = 1;
    focus = three-Focus;
    balanced = ((refl, refl, refl, refl), (refl, refl, refl, refl));
    root_black = refl;
    same_keys = refl;
  };
  sorted = ((refl, (refl, tt)), ((refl, tt), (tt, tt)));
  counted = refl;
  some_next = λ e. omega (arith, e);
}
