-- ===== src/Blog/Quotes.antt =====
-- PostgresTagRepo.cc: `ParseTags` on the text that the server makes of an array. How it writes an
-- element is an argument, `element`: PostgreSQL is outside.
use stud_stuff.Base.{
  ℕ, Bool, true, false, not, ◌||◌, ◌&&◌, List, [], ◌∷◌, ◌++◌, ◌-◌, map, some, ◌≡◌, refl, ◌∙◌, arith,
  leb, ◌==◌, if◌then◌else◌, inl, inr, Bool-cases, length, All, Lacks, Bytes, codes, bytes_eq,
  bytes_eq→eq, bytes_eq_refl,
}
use stud_stuff.Blog.Repositories.{parse_tags}
use stud_stuff.Blog.Tags.{contains, braced, Plain, parse_tags-braced}

-- a comma, a brace, a quote, a backslash, or white space
unfoldable pub is_special : ℕ → Bool
is_special c =
    c == b','
    || (c == b'{' || (c == b'}' || (c == 34 || (c == 92 || (c == 32 || (leb 9 c && leb c 13))))))

unfoldable pub any_special : Bytes → Bool
any_special [] = false
any_special (c ∷ s) = is_special c || any_special s

unfoldable pub upper : ℕ → ℕ
upper c = if leb 97 c && leb c 122 then c - 32 else c

-- Which elements PostgreSQL writes in quotes: the empty one, NULL in any case, and those with a
-- byte that is special.
unfoldable pub needs_quotes : Bytes → Bool
needs_quotes t = length t == 0 || (bytes_eq (map upper t) (codes "NULL") || any_special t)

-- a quote and a backslash behind a backslash
unfoldable pub escaped : Bytes → Bytes
escaped [] = []
escaped (c ∷ s) = if c == 34 || c == 92 then 92 ∷ c ∷ escaped s else c ∷ escaped s

-- What the manual of PostgreSQL says of the text of an element.
pub record ArrayOut (element : Bytes → Bytes) : Type 0 where
  pub bare : (t : Bytes) → needs_quotes t ≡ false → element t ≡ t
  pub quoted : (t : Bytes) → needs_quotes t ≡ true → element t ≡ 34 ∷ escaped t ++ 34 ∷ []

-- the text of an array
unfoldable pub array_text : (Bytes → Bytes) → List Bytes → Bytes
array_text element ts = braced (map element ts)

special_comma : (c : ℕ) → is_special c ≡ false → (c == b',') ≡ false
unfolding is_special
special_comma c h = elim (Bool-cases (c == b',')) [
  | inl e ↦ absurd (ground (arith, h, e))
  | inr e ↦ e
]

any_special-Lacks : (t : Bytes) → any_special t ≡ false → Lacks b',' t
unfolding any_special
any_special-Lacks [] h = tt
any_special-Lacks (c ∷ t) h = elim (Bool-cases (is_special c)) [
  | inl e ↦ absurd (ground (arith, h, e))
  | inr e ↦ (special_comma c e, any_special-Lacks t (ground (arith, h, e)))
]

bare-Plain : (t : Bytes) → needs_quotes t ≡ false → Plain t
unfolding needs_quotes
bare-Plain [] h = cc
bare-Plain (c ∷ t) h = elim (Bool-cases (any_special (c ∷ t))) [
  | inl e ↦ absurd (ground (arith, h, e))
  | inr e ↦ record { some_text = λ n. cc; no_comma = any_special-Lacks (c ∷ t) e }
]

escaped-Lacks : (t : Bytes) → Lacks b',' t → Lacks b',' (escaped t ++ 34 ∷ [])
unfolding escaped
escaped-Lacks [] h = (refl, tt)
escaped-Lacks (c ∷ t) h = elim (Bool-cases (c == 34 || c == 92)) [
  | inl e ↦ rw e (refl, (h.0, escaped-Lacks t h.1))
  | inr e ↦ rw e (h.0, escaped-Lacks t h.1)
]

-- A text without a quote is none that is quoted.
not_quoted : (q s : Bytes) → Lacks 34 q → bytes_eq q (34 ∷ s) ≡ false
unfolding bytes_eq
not_quoted [] s h = refl
not_quoted (c ∷ q) s h = rw h.0 refl

and_or : (a b n : Bool) → ((a && n) || (b && n)) ≡ ((a || b) && n)
and_or true b true = refl
and_or true true false = refl
and_or true false false = refl
and_or false b n = refl

module _ (element : Bytes → Bytes) (out : ArrayOut element) where
  element-Plain : (t : Bytes) → Lacks b',' t → Plain (element t)
  element-Plain t h = elim (Bool-cases (needs_quotes t)) [
    | inl e ↦
        rw (out.quoted t e) (record { some_text = λ n. cc; no_comma = (refl, escaped-Lacks t h) })
    | inr e ↦ rw (out.bare t e) (bare-Plain t e)
  ]

  elements-Plain : (ts : List Bytes) → All (Lacks b',') ts → All Plain (map element ts)
  elements-Plain [] h = tt
  elements-Plain (t ∷ ts) h = (element-Plain t h.0, elements-Plain ts h.1)

  eq-element :
      (q t : Bytes) → Lacks 34 q → bytes_eq q (element t) ≡ (bytes_eq q t && not (needs_quotes q))
  eq-element q t h = elim (Bool-cases (bytes_eq q t)) [
    | inl same ↦
        let e : q ≡ t = bytes_eq→eq q t same in
        elim (Bool-cases (needs_quotes t)) [
          | inl n ↦
              rw (same, e, n, out.quoted t n) (not_quoted t (escaped t ++ 34 ∷ []) (rw (← e) h))
          | inr n ↦ rw (same, e, n, out.bare t n) (bytes_eq_refl t)
        ]
    | inr differ ↦ elim (Bool-cases (needs_quotes t)) [
      | inl n ↦ rw (differ, out.quoted t n) (not_quoted q (escaped t ++ 34 ∷ []) h)
      | inr n ↦ rw (differ, out.bare t n) differ
    ]
  ]

  contains-elements :
      (q : Bytes) (ts : List Bytes)
      → Lacks 34 q
      → contains q (map element ts) ≡ (contains q ts && not (needs_quotes q))
  unfolding contains
  contains-elements q [] h = refl
  contains-elements q (t ∷ ts) h =
      rw (eq-element q t h, contains-elements q ts h)
        (and_or (bytes_eq q t) (contains q ts) (not (needs_quotes q)))

  -- Where the server writes elements as the manual says, `ParseTags` reads a text that has no
  -- double quote from an array of tags that have no comma exactly when the text is one of the
  -- tags and is written without quotes.
  pub parse_tags-array_text :
      (ts : List Bytes) (q : Bytes)
      → All (Lacks b',') ts
      → Lacks 34 q
      → contains q (parse_tags (some (array_text element ts)))
        ≡ (contains q ts && not (needs_quotes q))
  unfolding array_text
  parse_tags-array_text ts q h no_quote =
      parse_tags-braced (map element ts) q (elements-Plain ts h) ∙ contains-elements q ts no_quote
