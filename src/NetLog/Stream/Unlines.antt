-- ===== src/NetLog/Stream/Unlines.antt =====
-- The lines that `Process` writes, read again.
use stud_stuff.Base.{
  Bool, List, [], ◌∷◌, Option, none, some, Bytes, ◌≡◌, refl, ap, ◌∙◌, inl, inr, Bool-cases, All,
  All-append, Lacks,
}
use stud_stuff.NetLog.Address.{IPv4Address}
use stud_stuff.NetLog.Stream.Lines.{lines, lines-first}
use stud_stuff.NetLog.Stream.Takes.{select, selected, unlines}
use stud_stuff.NetLog.Stream.{parse_ip_from_line}

-- what holds of the lines holds of those that are selected
select-All :
    (P : Bytes → Type 0) (accepts : IPv4Address → Bool) (l : Bytes) (ip : Option IPv4Address)
    → P l
    → All P (select accepts l ip)
unfolding select
select-All P accepts l none p = tt
select-All P accepts l (some ip) p = elim (Bool-cases (accepts ip)) [
  | inl e ↦ rw e (p, tt)
  | inr e ↦ rw e tt
]

pub selected-All :
    (P : Bytes → Type 0) (accepts : IPv4Address → Bool) (ls : List Bytes)
    → All P ls
    → All P (selected accepts ls)
unfolding selected
selected-All P accepts [] h = tt
selected-All P accepts (l ∷ ls) (p, h) =
    All-append P (select accepts l (parse_ip_from_line l)) (selected accepts ls)
      (select-All P accepts l (parse_ip_from_line l) p) (selected-All P accepts ls h)

pub lines-unlines : (ls : List Bytes) → All (Lacks b'\n') ls → lines (unlines ls) ≡ ls
unfolding unlines
lines-unlines [] h = unfold lines in refl
lines-unlines (l ∷ ls) (p, h) = lines-first l (unlines ls) p ∙ ap (λ z. l ∷ z) (lines-unlines ls h)
