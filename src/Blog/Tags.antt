-- ===== src/Blog/Tags.antt =====
-- PostgresTagRepo.cc: `ParseTags` on texts in braces, with commas between.
use mathlib.Core.List.{append_assoc, append-nil}
use stud_stuff.Base.{
  Bool, true, false, ◌||◌, List, [], ◌∷◌, ◌++◌, ◌-◌, some, ◌≡◌, ◌≢◌, refl, ap, ◌∙◌, arith, leb,
  ◌==◌, inl, inr, Bool-cases, length, length-append, take-length-append, All, Lacks, Bytes,
  bytes_eq,
}
use stud_stuff.Blog.Repositories.{
  bytes_less, set_insert, add_tag, read_tags, without_braces, parse_tags,
}

unfoldable pub contains : Bytes → List Bytes → Bool
contains s [] = false
contains s (t ∷ ts) = bytes_eq s t || contains s ts

-- the texts between commas
unfoldable pub joined_from : Bytes → List Bytes → Bytes
joined_from t [] = t
joined_from t (u ∷ us) = t ++ b',' ∷ joined_from u us

unfoldable pub joined : List Bytes → Bytes
joined [] = []
joined (t ∷ ts) = joined_from t ts

-- texts in braces
unfoldable pub braced : List Bytes → Bytes
braced ts = b'{' ∷ joined ts ++ b'}' ∷ []

-- a text that stands for itself between commas
pub record Plain (t : Bytes) : Type 0 where
  pub some_text : t ≢ []
  pub no_comma : Lacks b',' t

neither_less : (s t : Bytes) → bytes_less s t ≡ false → bytes_less t s ≡ false → s ≡ t
unfolding bytes_less
neither_less [] [] h g = refl
neither_less [] (d ∷ t) h g = cc
neither_less (c ∷ s) [] h g = cc
neither_less (c ∷ s) (d ∷ t) h g = ground (arith, neither_less s t)

swap_or : (a b c : Bool) → (a || (b || c)) ≡ (b || (a || c))
swap_or true true c = refl
swap_or true false c = refl
swap_or false true c = refl
swap_or false false c = refl

no_more : (a b : Bool) → (a || b) ≡ ((a || false) || b)
no_more true b = refl
no_more false b = refl

shuffle : (a b c : Bool) → (a || (b || c)) ≡ ((b || a) || c)
shuffle true true c = refl
shuffle true false c = refl
shuffle false true c = refl
shuffle false false c = refl

pub nothing_else : (a : Bool) → (a || false) ≡ a
nothing_else true = refl
nothing_else false = refl

or_twice : (a b : Bool) → (a || b) ≡ (a || (a || b))
or_twice true b = refl
or_twice false b = refl

contains-set_insert :
    (q s : Bytes) (ts : List Bytes) → contains q (set_insert s ts) ≡ (bytes_eq q s || contains q ts)
unfolding contains set_insert
contains-set_insert q s [] = refl
contains-set_insert q s (t ∷ ts) = elim (Bool-cases (bytes_less s t)) [
  | inl e ↦ rw e refl
  | inr e ↦ elim (Bool-cases (bytes_less t s)) [
    | inl g ↦
        rw (e, g, contains-set_insert q s ts)
          (swap_or (bytes_eq q t) (bytes_eq q s) (contains q ts))
    | inr g ↦ rw (e, g, neither_less s t e g) (or_twice (bytes_eq q t) (contains q ts))
  ]
]

-- a text up to a comma
read_tags-comma :
    (acc s rest : Bytes) (tags : List Bytes)
    → Lacks b',' s
    → read_tags acc (s ++ b',' ∷ rest) tags ≡ read_tags [] rest (add_tag (acc ++ s) tags)
unfolding read_tags
read_tags-comma acc [] rest tags h = rw (append-nil acc) refl
read_tags-comma acc (c ∷ s) rest tags h = rw h.0 (
    read_tags-comma (acc ++ c ∷ []) s rest tags h.1
    ∙ ap (λ z. read_tags [] rest (add_tag z tags)) (append_assoc acc (c ∷ []) s))

read_tags-last :
    (acc s : Bytes) (tags : List Bytes)
    → Lacks b',' s
    → read_tags acc s tags ≡ add_tag (acc ++ s) tags
unfolding read_tags
read_tags-last acc [] tags h = rw (append-nil acc) refl
read_tags-last acc (c ∷ s) tags h = rw h.0 (
    read_tags-last (acc ++ c ∷ []) s tags h.1
    ∙ ap (λ z. add_tag z tags) (append_assoc acc (c ∷ []) s))

contains-add_tag :
    (q t : Bytes) (tags : List Bytes)
    → t ≢ []
    → contains q (add_tag t tags) ≡ (bytes_eq q t || contains q tags)
unfolding add_tag
contains-add_tag q [] tags h = absurd (h refl)
contains-add_tag q (c ∷ t) tags h =
    let test : (length (c ∷ t) == 0) ≡ false = ground arith in
    rw test (contains-set_insert q (c ∷ t) tags)

contains-read_tags :
    (q t : Bytes) (ts tags : List Bytes)
    → Plain t
    → All Plain ts
    → contains q (read_tags [] (joined_from t ts) tags) ≡ (contains q (t ∷ ts) || contains q tags)
unfolding joined_from contains
contains-read_tags q t [] tags p h =
    ap (contains q) (read_tags-last [] t tags p.no_comma)
    ∙ contains-add_tag q t tags p.some_text
    ∙ no_more (bytes_eq q t) (contains q tags)
contains-read_tags q t (u ∷ us) tags p h =
    ap (contains q) (read_tags-comma [] t (joined_from u us) tags p.no_comma)
    ∙ contains-read_tags q u us (add_tag t tags) h.0 h.1
    ∙ ap (λ z. contains q (u ∷ us) || z) (contains-add_tag q t tags p.some_text)
    ∙ shuffle (contains q (u ∷ us)) (bytes_eq q t) (contains q tags)

without_braces-array : (s : Bytes) → without_braces (b'{' ∷ s ++ b'}' ∷ []) ≡ s
unfolding without_braces
without_braces-array s =
    let long = length-append s (b'}' ∷ []) in
    let test : leb 2 (length (b'{' ∷ s ++ b'}' ∷ [])) ≡ true = ground (arith, long) in
    let cut : length (b'{' ∷ s ++ b'}' ∷ []) - 2 ≡ length s = omega (arith, long) in
    rw (test, cut) (take-length-append s (b'}' ∷ []))

-- `ParseTags` reads a text from others in braces, which are not empty and have no comma, exactly
-- when it is one of them.
pub parse_tags-braced :
    (ts : List Bytes) (q : Bytes)
    → All Plain ts
    → contains q (parse_tags (some (braced ts))) ≡ contains q ts
unfolding parse_tags braced joined contains
parse_tags-braced [] q h = rw (without_braces-array []) (unfold read_tags add_tag in refl)
parse_tags-braced (t ∷ ts) q h =
    rw (without_braces-array (joined_from t ts))
      (contains-read_tags q t ts [] h.0 h.1 ∙ nothing_else (contains q (t ∷ ts)))
