-- ===== src/NetLog/Stream/Lines.antt =====
-- The loop of `Process` goes over the lines of the input, and its fuel is enough.
use stud_stuff.Base.{
  ℕ, zero, suc, ◌≤◌, ◌<◌, Bool, List, [], ◌∷◌, Bytes, ◌≡◌, refl, ap, ◌∙◌, arith, ◌==◌, ◌++◌, false,
  All, Lacks, inl, inr, Bool-cases, if◌then◌else◌, length,
}
use stud_stuff.NetLog.Address.{IPv4Address}
use stud_stuff.NetLog.Stream.{Run, line_of, after_line, getline, process_line, process_loop}

-- a character before the first line
join : ℕ → List Bytes → List Bytes
join c [] = (c ∷ []) ∷ []
join c (l ∷ ls) = (c ∷ l) ∷ ls

-- The lines of a text: a newline ends one, and what stands behind the last newline is one more
-- unless it is empty.
unfoldable pub lines : Bytes → List Bytes
unfolding join
lines [] = []
lines (c ∷ s) = if c == b'\n' then [] ∷ lines s else join c (lines s)

unfoldable pub over : (IPv4Address → Bool) → List Bytes → Run → Run
over accepts [] r = r
over accepts (l ∷ ls) r = over accepts ls (process_line accepts l r)

pub lines_step : (c : ℕ) (s : Bytes) → lines (c ∷ s) ≡ line_of (c ∷ s) ∷ lines (after_line (c ∷ s))
unfolding lines line_of after_line
lines_step c [] = ground arith
lines_step c (d ∷ s) = ground (arith, lines_step d s)

length-after_line : (s : Bytes) → length (after_line s) ≤ length s
unfolding after_line
length-after_line [] = omega arith
length-after_line (c ∷ s) = ground (arith, length-after_line s)

pub length-after_line_lt : (c : ℕ) (s : Bytes) → length (after_line (c ∷ s)) ≤ length s
unfolding after_line
length-after_line_lt c s = ground (arith, length-after_line s)

pub process_loop-over :
    (accepts : IPv4Address → Bool) (fuel : ℕ) (input : Bytes) (r : Run)
    → length input < fuel
    → process_loop fuel accepts input r ≡ over accepts (lines input) r
unfolding process_loop getline over
process_loop-over accepts zero input r h = absurd (omega arith)
process_loop-over accepts (suc fuel) [] r h = unfold lines in refl
process_loop-over accepts (suc fuel) (c ∷ s) r h = rw (lines_step c s) (
    process_loop-over accepts fuel (after_line (c ∷ s)) (process_line accepts (line_of (c ∷ s)) r)
      (omega (arith, length-after_line_lt c s)))

-- no line has a newline
join-Lacks :
    (c : ℕ) (ls : List Bytes)
    → (c == b'\n') ≡ false
    → All (Lacks b'\n') ls
    → All (Lacks b'\n') (join c ls)
unfolding join
join-Lacks c [] h a = ((h, tt), tt)
join-Lacks c (l ∷ ls) h (p, a) = ((h, p), a)

pub lines-Lacks : (s : Bytes) → All (Lacks b'\n') (lines s)
unfolding lines
lines-Lacks [] = tt
lines-Lacks (c ∷ s) = elim (Bool-cases (c == b'\n')) [
  | inl e ↦ rw e (tt, lines-Lacks s)
  | inr e ↦ rw e (join-Lacks c (lines s) e (lines-Lacks s))
]

line_of-first : (l s : Bytes) → Lacks b'\n' l → line_of (l ++ b'\n' ∷ s) ≡ l
unfolding line_of
line_of-first [] s h = refl
line_of-first (c ∷ l) s h = rw h.0 (ap (λ z. c ∷ z) (line_of-first l s h.1))

after_line-first : (l s : Bytes) → Lacks b'\n' l → after_line (l ++ b'\n' ∷ s) ≡ s
unfolding after_line
after_line-first [] s h = refl
after_line-first (c ∷ l) s h = rw h.0 (after_line-first l s h.1)

pub lines-first : (l s : Bytes) → Lacks b'\n' l → lines (l ++ b'\n' ∷ s) ≡ l ∷ lines s
lines-first [] s h = lines_step b'\n' s ∙ rw (line_of-first [] s tt, after_line-first [] s tt) refl
lines-first (c ∷ l) s h =
    lines_step c (l ++ b'\n' ∷ s)
    ∙ rw (line_of-first (c ∷ l) s h, after_line-first (c ∷ l) s h) refl
