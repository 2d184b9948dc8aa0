-- ===== src/NetLog/Stream/Takes.antt =====
-- What a round of the loop of `Process` takes: the lines that it selects are buffered or written.
use mathlib.Core.List.{append-nil, append_assoc}
use stud_stuff.Base.{
  ℕ, ◌+◌, ◌*◌, ◌≤◌, ◌<◌, max, Bool, true, false, List, [], ◌∷◌, ◌++◌, Option, none, some, Bytes,
  ◌≡◌, refl, sym, ap, ◌∙◌, arith, leb, if◌then◌else◌, length, length-append, Bool-cases, inl, inr,
}
use stud_stuff.NetLog.Address.{IPv4Address}
use stud_stuff.NetLog.Stream.Lines.{over}
use stud_stuff.NetLog.Stream.{
  LogEntry, StreamProcessor, Output, Run, parse_ip_from_line, render, is_empty, flush_buffer,
  flush_if_full, keep, process_line,
}

-- the line itself, or nothing
unfoldable pub select : (IPv4Address → Bool) → Bytes → Option IPv4Address → List Bytes
select accepts line none = []
select accepts line (some ip) = if accepts ip then line ∷ [] else []

-- The lines that begin with an accepted address, in order.
unfoldable pub selected : (IPv4Address → Bool) → List Bytes → List Bytes
unfolding select
selected accepts [] = []
selected accepts (l ∷ ls) = select accepts l (parse_ip_from_line l) ++ selected accepts ls

-- Lines with a newline behind each.
unfoldable pub unlines : List Bytes → Bytes
unlines [] = []
unlines (l ∷ ls) = l ++ (b'\n' ∷ unlines ls)

pub render-nil : render [] ≡ []
unfolding render
render-nil = refl

render-append : (a b : List LogEntry) → render (a ++ b) ≡ render a ++ render b
unfolding render
render-append [] b = refl
render-append (e ∷ a) b = simp (render-append a b, append_assoc)

pub unlines-append : (a b : List Bytes) → unlines (a ++ b) ≡ unlines a ++ unlines b
unfolding unlines
unlines-append [] b = refl
unlines-append (l ∷ a) b = simp (unlines-append a b, append_assoc)

-- A batch size of zero acts as one.
abbrev pub batch_of : StreamProcessor → ℕ
batch_of self = max self.batch_size 1

-- From `(self, out)` to `(self', out')` the lines `ls` are taken: they are written or buffered,
-- and a flush takes a whole batch.
pub record Takes (ls : List Bytes) (self : StreamProcessor) (out : Output) (self' : StreamProcessor)
    (out' : Output) : Type 0 where
  pub batch : self'.batch_size ≡ self.batch_size
  pub room : length self'.buffer < batch_of self
  pub text : out'.text ++ render self'.buffer ≡ (out.text ++ render self.buffer) ++ unlines ls
  pub count :
      out'.flushes * batch_of self + length self'.buffer
      ≡ out.flushes * batch_of self + length self.buffer + length ls

keep_lem :
    (accepts : IPv4Address → Bool) (line : Bytes) (number : ℕ) (ip : Option IPv4Address)
    (buffer : List LogEntry)
    → (render (keep accepts line number ip buffer)
        ≡ render buffer ++ unlines (select accepts line ip))
      × (length (keep accepts line number ip buffer)
          ≡ length buffer + length (select accepts line ip))
      × (length (select accepts line ip) ≤ 1)
unfolding keep select unlines render
keep_lem accepts line number none buffer = (rw append-nil, omega arith, omega arith)
keep_lem accepts line number (some ip) buffer = elim (Bool-cases (accepts ip)) [
  | inl yes_ip ↦ rw yes_ip (render-append buffer _, omega (arith, length-append {0}), omega arith)
  | inr no_ip ↦ rw no_ip (rw append-nil, omega arith, omega arith)
]

pub is_empty-length :
    (b : List LogEntry) → (is_empty b ≡ true → b ≡ []) × (is_empty b ≡ false → 0 < length b)
unfolding is_empty
is_empty-length [] = (λ _. refl, λ h. cc)
is_empty-length (e ∷ b) = ((λ h. cc), λ _. omega arith)

-- A flush writes what is buffered, unless nothing is.
flush_buffer-empty :
    (self : StreamProcessor) (out : Output)
    → is_empty self.buffer ≡ true
    → flush_buffer self out ≡ (self, out)
unfolding flush_buffer
flush_buffer-empty self out h = rw h

pub flush_buffer-full :
    (self : StreamProcessor) (out : Output)
    → is_empty self.buffer ≡ false
    → flush_buffer self out ≡ (
      record self { buffer = [] },
      record { text = out.text ++ render self.buffer; flushes = out.flushes + 1 },
    )
unfolding flush_buffer
flush_buffer-full self out h = rw h

module _ (self : StreamProcessor) (out : Output) where
  Takes-nothing : length self.buffer < batch_of self → Takes [] self out self out
  unfolding unlines
  Takes-nothing h = record {
    batch = refl;
    room = h;
    text = sym (append-nil _);
    count = omega arith;
  }

  Takes-flush :
      length self.buffer ≡ batch_of self
      → Takes [] self out
          (record self { buffer = [] })
          (record { text = out.text ++ render self.buffer; flushes = out.flushes + 1 })
  unfolding unlines render
  Takes-flush h = record { batch = refl; room = omega arith; text = refl; count = omega arith }

  flush_if_full_lem :
      length self.buffer ≤ batch_of self
      → Takes [] self out (flush_if_full self out).0 (flush_if_full self out).1
  unfolding flush_if_full
  flush_if_full_lem h = elim (Bool-cases (leb self.batch_size (length self.buffer))) [
    | inr roomy ↦ rw roomy (Takes-nothing (ground arith))
    | inl full ↦ elim (Bool-cases (is_empty self.buffer)) [
      | inl e ↦
          rw (full, flush_buffer-empty self out e)
            (Takes-nothing (omega (arith, ap length ((is_empty-length self.buffer).0 e))))
      | inr e ↦
          rw (full, flush_buffer-full self out e)
            (Takes-flush (ground (arith, (is_empty-length self.buffer).1 e)))
    ]
  ]

process_line-Takes :
    (accepts : IPv4Address → Bool) (l : Bytes) (r : Run)
    → length r.self.buffer < batch_of r.self
    → Takes
        (select accepts l (parse_ip_from_line l))
        r.self
        r.out
        (process_line accepts l r).self
        (process_line accepts l r).out
unfolding process_line
process_line-Takes accepts l r h =
    let ip = parse_ip_from_line l in
    let (text, count, few) = keep_lem accepts l (r.line_number + 1) ip r.self.buffer in
    let pushed : StreamProcessor = record r.self {
      buffer = keep accepts l (r.line_number + 1) ip r.self.buffer;
    } in
    let t = flush_if_full_lem pushed r.out (omega arith) in
    record {
      batch = t.batch;
      room = t.room;
      text =
          t.text
          ∙ unfold unlines in
            (append-nil _ ∙ ap (◌++◌ r.out.text) text ∙ sym (append_assoc r.out.text _ _));
      count = omega (arith, t.count);
    }

Takes-trans :
    (ls ks : List Bytes) {s s1 s2 : StreamProcessor} {o o1 o2 : Output}
    → Takes ls s o s1 o1
    → Takes ks s1 o1 s2 o2
    → Takes (ls ++ ks) s o s2 o2
Takes-trans ls ks {s} {s1} {o = o} t u =
    let same : batch_of s1 ≡ batch_of s = ap (λ (n : ℕ). max n 1) t.batch in
    let count = rw same at u.count in
    record {
      batch = u.batch ∙ t.batch;
      room = rw same at u.room;
      text =
          u.text
          ∙ ap (λ (x : Bytes). x ++ unlines ks) t.text
          ∙ rw unlines-append (append_assoc (o.text ++ render s.buffer) (unlines ls) (unlines ks));
      count = omega (arith, length-append ls ks, t.count, count);
    }

pub over-Takes :
    (accepts : IPv4Address → Bool) (ls : List Bytes) (r : Run)
    → length r.self.buffer < batch_of r.self
    → Takes (selected accepts ls) r.self r.out (over accepts ls r).self (over accepts ls r).out
unfolding over selected
over-Takes accepts [] r h = Takes-nothing r.self r.out h
over-Takes accepts (l ∷ ls) r h =
    let first = process_line-Takes accepts l r h in
    let room : length (process_line accepts l r).self.buffer
        < batch_of (process_line accepts l r).self =
      rw first.batch first.room in
    Takes-trans (select accepts l (parse_ip_from_line l)) (selected accepts ls) first
      (over-Takes accepts ls (process_line accepts l r) room)
