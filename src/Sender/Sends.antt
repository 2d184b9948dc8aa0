-- ===== src/Sender/Sends.antt =====
-- m6-network/src/sender/sender_client.cc: what the program sends.
use stud_stuff.Base.{
  ℕ, suc, Bool, List, [], ◌∷◌, map, some, ◌≡◌, refl, sym, ap, ◌∙◌, arith, Bytes, codes, All,
}
use mathlib.Core.Path.{subst}
use stud_stuff.NetLog.Main.Selects.{
  wanted, the_filter, make_filter_lem, matches-wanted, selected_congr,
}
use stud_stuff.NetLog.Composite.{matches}
use stud_stuff.NetLog.Stream.Batches.{process-Processes}
use stud_stuff.NetLog.Stream.Lines.{lines, lines-Lacks}
use stud_stuff.NetLog.Stream.Takes.{selected, unlines}
use stud_stuff.NetLog.Stream.Unlines.{selected-All, lines-unlines}
use stud_stuff.NetLog.Stream.{Output, new, default_batch_size, process_stream}
use stud_stuff.Sender.Chunks.{Chunked, split_by_lines-Chunked}
use stud_stuff.Sender.{LogMessage, split_by_lines, get_log_messages, send, send_all, main}

pub payload_of : LogMessage → Bytes
payload_of m = m.payload

get_log_messages-payloads :
    (now : ℕ → Bytes) (i : ℕ) (ps : List Bytes) (source : Bytes)
    → map payload_of (get_log_messages now i ps source) ≡ ps
unfolding get_log_messages payload_of
get_log_messages-payloads now i [] source = refl
get_log_messages-payloads now i (p ∷ ps) source =
    ap (λ z. p ∷ z) (get_log_messages-payloads now (suc i) ps source)

abbrev blank : Output
blank = record { text = []; flushes = 0 }

filtered :
    (file : Bytes)
    → (process_stream the_filter file blank).text ≡ unlines (selected wanted (lines file))
unfolding process_stream new
filtered file =
    let p = process-Processes (matches the_filter) (new default_batch_size) file blank refl in
    p.text ∙ ap unlines (selected_congr _ wanted (lines file) matches-wanted)

chunked :
    (file text : Bytes)
    → text ≡ unlines (selected wanted (lines file))
    → Chunked 3 (selected wanted (lines file)) (split_by_lines text 3)
chunked file text e =
    let ls = selected wanted (lines file) in
    let back : lines text ≡ ls =
      ap lines e ∙ lines-unlines ls (selected-All _ wanted (lines file) (lines-Lacks file)) in
    subst (λ z. Chunked 3 z (split_by_lines text 3)) back
      (split_by_lines-Chunked text 3 (omega arith))

get_log_messages-source :
    (now : ℕ → Bytes) (i : ℕ) (ps : List Bytes) (source : Bytes)
    → All (λ m. m.source_service ≡ source) (get_log_messages now i ps source)
unfolding get_log_messages
get_log_messages-source now i [] source = tt
get_log_messages-source now i (p ∷ ps) source =
    (refl, get_log_messages-source now (suc i) ps source)

module _ {ℓ} {W : Type ℓ} (stub : W → LogMessage → W × (Bool × Bool)) where
  -- The stub was called with these messages, in this order, and with no other.
  pub data Received : W → List LogMessage → W → Type ℓ where
    nothing : (w : W) → Received w [] w
    next :
        (w : W) (m : LogMessage) (ms : List LogMessage) (w' : W)
        → Received (stub w m).0 ms w'
        → Received w (m ∷ ms) w'

  send_all-Received : (w : W) (ms : List LogMessage) → Received w ms (send_all stub w ms)
  unfolding send_all send
  send_all-Received w [] = nothing w
  send_all-Received w (m ∷ ms) =
      next w m ms (send_all stub (stub w m).0 ms) (send_all-Received (stub w m).0 ms)

  -- For a file that can be opened the sender ends with code 0, whatever the answers are. The stub
  -- has then been called with these messages, in order, and with no other: each names
  -- "ipv4_filter" for its source, and their payloads are the lines that begin with an address of
  -- 192.168.1.0/24 or of 10.0.0.1 to 10.0.0.100 and a space, in their order, three lines in each
  -- but the last, which may have fewer.
  pub main-sends :
      (now : ℕ → Bytes) (file : Bytes) (w : W)
      → (ms : List LogMessage) × (w' : W) × (main stub now (some file) w ≡ (w', 0))
        × Received w ms w'
        × All (λ m. m.source_service ≡ codes "ipv4_filter") ms
        × Chunked 3 (selected wanted (lines file)) (map payload_of ms)
  unfolding main
  main-sends now file w =
      let text = (process_stream the_filter file blank).text in
      let payloads = split_by_lines text 3 in
      let ms = get_log_messages now 0 payloads (codes "ipv4_filter") in
      (
        ms,
        send_all stub w ms,
        rw make_filter_lem refl,
        send_all-Received w ms,
        get_log_messages-source now 0 payloads (codes "ipv4_filter"),
        subst (Chunked 3 (selected wanted (lines file)))
            (sym (get_log_messages-payloads now 0 payloads (codes "ipv4_filter")))
            (chunked file text (filtered file)),
      )
