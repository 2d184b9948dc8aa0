-- ===== src/NetLog/Stream/Batches.antt =====
-- What `Process` writes, whatever the batch size, and how often it flushes.
use mathlib.Core.List.{append-nil}
use stud_stuff.Base.{
  suc, ◌+◌, ◌*◌, ◌≤◌, ◌<◌, Bool, List, [], ◌++◌, Bytes, ◌≡◌, sym, ap, ◌∙◌, arith, length,
  Bool-cases, inl, inr,
}
use stud_stuff.NetLog.Address.{IPv4Address}
use stud_stuff.NetLog.Stream.Lines.{lines, process_loop-over}
use stud_stuff.NetLog.Stream.{StreamProcessor, Output, Run, render, is_empty, flush_rest, process}
use stud_stuff.NetLog.Stream.Takes.{
  selected, unlines, batch_of, Takes, render-nil, is_empty-length, flush_buffer-full, over-Takes,
}

-- What `Process` does from an empty buffer: the accepted lines are written in order behind the
-- output, each with a newline, the buffer is empty again, and the lines are flushed in whole
-- batches but for the last.
pub record Processes (ls : List Bytes) (self : StreamProcessor) (out : Output)
    (r : StreamProcessor × Output) : Type 0 where
  pub processor : r.0 ≡ self
  pub text : r.1.text ≡ out.text ++ unlines ls
  pub enough : out.flushes * batch_of self + length ls ≤ r.1.flushes * batch_of self
  pub no_more :
      r.1.flushes * batch_of self < out.flushes * batch_of self + length ls + batch_of self

module _ (ls : List Bytes) {s s' : StreamProcessor} {o o' : Output} (fresh : s.buffer ≡ [])
    (t : Takes ls s o s' o') where
  text_rest : o'.text ++ render s'.buffer ≡ o.text ++ unlines ls
  text_rest =
      t.text
      ∙ ap (λ b. (o.text ++ render b) ++ unlines ls) fresh
      ∙ ap (λ b. (o.text ++ b) ++ unlines ls) render-nil
      ∙ ap (λ (x : Bytes). x ++ unlines ls) (append-nil o.text)

  Processes-drained : s'.buffer ≡ [] → Processes ls s o (s', o')
  Processes-drained drained =
      let none_left = ap length drained in
      let none_before = ap length fresh in
      record {
        processor = λ i. record { buffer = (drained ∙ sym fresh) i; batch_size = t.batch i };
        text =
            sym (append-nil o'.text)
            ∙ ap (λ b. o'.text ++ b) (sym render-nil)
            ∙ ap (λ b. o'.text ++ render b) (sym drained)
            ∙ text_rest;
        enough = omega (arith, t.count);
        no_more = omega (arith, t.count);
      }

  Processes-flushed :
      0 < length s'.buffer
      → Processes ls s o (
        record s' { buffer = [] },
        record { text = o'.text ++ render s'.buffer; flushes = o'.flushes + 1 },
      )
  Processes-flushed some_left =
      let none_before = ap length fresh in
      record {
        processor = λ i. record { buffer = sym fresh i; batch_size = t.batch i };
        text = text_rest;
        enough = omega (arith, t.count, t.room);
        no_more = omega (arith, t.count);
      }

  flush_rest-Processes : Processes ls s o (flush_rest s' o')
  unfolding flush_rest
  flush_rest-Processes = elim (Bool-cases (is_empty s'.buffer)) [
    | inl e ↦ rw e (Processes-drained ((is_empty-length s'.buffer).0 e))
    | inr e ↦
        rw (e, flush_buffer-full s' o' e) (Processes-flushed ((is_empty-length s'.buffer).1 e))
  ]

-- `Process` with a processor whose buffer is empty, on any input, at any batch size.
pub process-Processes :
    (accepts : IPv4Address → Bool) (self : StreamProcessor) (input : Bytes) (out : Output)
    → self.buffer ≡ []
    → Processes (selected accepts (lines input)) self out (process accepts self input out)
unfolding process
process-Processes accepts self input out fresh =
    let start : Run = record { self = self; out = out; line_number = 0 } in
    rw (process_loop-over accepts (suc (length input)) input start (omega arith)) (
      flush_rest-Processes (selected accepts (lines input)) fresh
        (over-Takes accepts (lines input) start (omega (arith, ap length fresh))))
