-- ===== src/Sender/Chunks.antt =====
-- m6-network/src/common/helpers.cc and sender/sender_client.cc: the chunks of a text, and what is
-- sent.
use mathlib.Core.List.{append_assoc, append-nil}
use mathlib.Core.Path.{subst}
use stud_stuff.Base.{
  ℕ, zero, suc, ◌+◌, ◌<◌, List, [], ◌∷◌, ◌++◌, ◌≡◌, refl, sym, ◌∙◌, arith, Bytes, ◌==◌,
  if◌then◌else◌, length, length-append, inl, inr, Bool-cases,
}
use stud_stuff.NetLog.Stream.Lines.{lines, lines_step, length-after_line_lt}
use stud_stuff.NetLog.Stream.Takes.{unlines, unlines-append}
use stud_stuff.NetLog.Stream.{line_of, after_line, getline}
use stud_stuff.Sender.{last_chunk, split_loop, split_by_lines}

-- Each chunk is `n` lines, each with its newline; the last may be fewer, and is not empty.
pub data Chunked (n : ℕ) : List Bytes → List Bytes → Type 0 where
  all_done : Chunked n [] []
  fewer : (ls : List Bytes) → 0 < length ls → length ls < n → Chunked n ls (unlines ls ∷ [])
  full :
      (ls rest chunks : List Bytes)
      → length ls ≡ n
      → Chunked n rest chunks
      → Chunked n (ls ++ rest) (unlines ls ∷ chunks)

-- the loop on lines
chunks_of : ℕ → List Bytes → List Bytes → ℕ → List Bytes
chunks_of n [] [] count = []
chunks_of n [] (h ∷ held) count = unlines (h ∷ held) ∷ []
chunks_of n (l ∷ ls) held count =
    let pushed = unlines (held ++ l ∷ []) ∷ chunks_of n ls [] 0 in
    let more = chunks_of n ls (held ++ l ∷ []) (count + 1) in
    if count + 1 == n then pushed else more

chunks_of-Chunked :
    (n : ℕ) (ls held : List Bytes)
    → length held < n
    → Chunked n (held ++ ls) (chunks_of n ls held (length held))
unfolding chunks_of
chunks_of-Chunked n [] [] h = all_done
chunks_of-Chunked n [] (x ∷ held) h =
    subst (λ z. Chunked n z (unlines (x ∷ held) ∷ [])) (sym (append-nil (x ∷ held)))
      (fewer (x ∷ held) (omega arith) h)
chunks_of-Chunked n (l ∷ ls) held h =
    let long : length (held ++ l ∷ []) ≡ length held + 1 = length-append held (l ∷ []) in
    let regroup : (held ++ l ∷ []) ++ ls ≡ held ++ l ∷ ls = append_assoc held (l ∷ []) ls in
    elim (Bool-cases (length held + 1 == n)) [
      | inl e ↦ rw e (
          subst (λ z. Chunked n z (unlines (held ++ l ∷ []) ∷ chunks_of n ls [] 0)) regroup
            (full (held ++ l ∷ []) ls (chunks_of n ls [] 0) (ground (arith, long, e))
              (chunks_of-Chunked n ls [] (omega (arith, h)))))
      | inr e ↦ rw e (
          subst (λ z. Chunked n (held ++ l ∷ ls) (chunks_of n ls (held ++ l ∷ []) z)) long
            (subst (λ z. Chunked n z (chunks_of n ls (held ++ l ∷ []) (length (held ++ l ∷ []))))
              regroup (chunks_of-Chunked n ls (held ++ l ∷ []) (ground (arith, long, h, e)))))
    ]

last_chunk-chunks_of :
    (n count : ℕ) (result held : List Bytes)
    → last_chunk result (unlines held) ≡ result ++ chunks_of n [] held count
unfolding last_chunk chunks_of unlines
last_chunk-chunks_of n count result [] = sym (append-nil result)
last_chunk-chunks_of n count result ([] ∷ held) = refl
last_chunk-chunks_of n count result ((c ∷ l) ∷ held) = refl

-- a round, with what holds of the rest
round-chunks_of :
    (n fuel : ℕ) (l rest : Bytes) (result held : List Bytes) (count : ℕ)
    → ((r h : List Bytes) (c : ℕ)
        → split_loop fuel n rest r (unlines h) c ≡ r ++ chunks_of n (lines rest) h c)
    → (if count + 1 == n
        then split_loop fuel n rest (result ++ (unlines held ++ (l ++ b'\n' ∷ [])) ∷ []) [] 0
        else split_loop fuel n rest result (unlines held ++ (l ++ b'\n' ∷ [])) (count + 1))
      ≡ result ++ chunks_of n (l ∷ lines rest) held count
unfolding chunks_of unlines
round-chunks_of n fuel l rest result held count ih =
    let grown : unlines (held ++ l ∷ []) ≡ unlines held ++ (l ++ b'\n' ∷ []) =
      unlines-append held (l ∷ []) in
    elim (Bool-cases (count + 1 == n)) [
      | inl e ↦
          rw (e, sym grown)
            (ih (result ++ unlines (held ++ l ∷ []) ∷ []) [] 0
              ∙ append_assoc result (unlines (held ++ l ∷ []) ∷ []) (chunks_of n (lines rest) [] 0))
      | inr e ↦ rw (e, sym grown) (ih result (held ++ l ∷ []) (count + 1))
    ]

split_loop-chunks_of :
    (n fuel : ℕ) (text : Bytes) (result held : List Bytes) (count : ℕ)
    → length text < fuel
    → split_loop fuel n text result (unlines held) count
      ≡ result ++ chunks_of n (lines text) held count
unfolding split_loop getline
split_loop-chunks_of n zero text result held count room = absurd (omega arith)
split_loop-chunks_of n (suc fuel) [] result held count room =
    last_chunk-chunks_of n count result held ∙ (unfold lines in refl)
split_loop-chunks_of n (suc fuel) (c ∷ s) result held count room = rw (lines_step c s) (
    round-chunks_of n fuel (line_of (c ∷ s)) (after_line (c ∷ s)) result held count (λ r h k.
      split_loop-chunks_of n fuel (after_line (c ∷ s)) r h k
        (omega (arith, length-after_line_lt c s))))

-- `SplitByLines` cuts a text into chunks of so many lines, in order, for a positive number: each
-- has its lines with their newlines, and only the last may have fewer, but not none.
pub split_by_lines-Chunked :
    (text : Bytes) (n : ℕ) → 0 < n → Chunked n (lines text) (split_by_lines text n)
unfolding split_by_lines unlines
split_by_lines-Chunked text n some_n =
    subst (Chunked n (lines text))
      (sym (split_loop-chunks_of n (suc (length text)) text [] [] 0 (omega arith)))
      (chunks_of-Chunked n (lines text) [] some_n)
