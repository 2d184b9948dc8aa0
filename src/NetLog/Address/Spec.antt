-- ===== src/NetLog/Address/Spec.antt =====
-- Dotted quads written out, independently of the parser.
use stud_stuff.Base.{ℕ, ◌+◌, ◌*◌, ◌/◌, ◌%◌, ◌^◌, ◌≤◌, [], ◌∷◌, ◌++◌, Bytes, ltb, if◌then◌else◌}

-- the decimal print of a byte, with no leading zero
unfoldable pub decimal : ℕ → Bytes
decimal n =
    if ltb n 10
    then (b'0' + n) ∷ []
    else if ltb n 100
    then (b'0' + n / 10) ∷ (b'0' + n % 10) ∷ []
    else (b'0' + n / 100) ∷ (b'0' + n / 10 % 10) ∷ (b'0' + n % 10) ∷ []

pub record Quad : Type 0 where
  pub a : ℕ
  pub b : ℕ
  pub c : ℕ
  pub d : ℕ

pub record IsQuad (q : Quad) : Type 0 where
  pub a_le : q.a ≤ 255
  pub b_le : q.b ≤ 255
  pub c_le : q.c ≤ 255
  pub d_le : q.d ≤ 255

unfoldable pub dotted : Quad → Bytes
dotted q = decimal q.a ++ (b'.' ∷ (decimal q.b ++ (b'.' ∷ (decimal q.c ++ (b'.' ∷ decimal q.d)))))

-- the number of a dotted quad, most significant byte first
abbrev pub number : Quad → ℕ
number q = q.a * 2 ^ 24 + q.b * 2 ^ 16 + q.c * 2 ^ 8 + q.d
