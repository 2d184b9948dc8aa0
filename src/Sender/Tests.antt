-- ===== src/Sender/Tests.antt =====
-- m6-network/src: texts in chunks, and a file that is sent to a stub that keeps what it gets.
use stud_stuff.Base.{ℕ, Bool, true, List, [], ◌∷◌, ◌++◌, map, some, ◌≡◌, refl, Bytes, codes, All}
use stud_stuff.NetLog.Main.Selects.{wanted}
use stud_stuff.NetLog.Stream.Lines.{lines}
use stud_stuff.NetLog.Stream.Takes.{selected}
use stud_stuff.NetLog.Stream.{line_of, after_line, getline}
use stud_stuff.Sender.Chunks.{Chunked}
use stud_stuff.Sender.Sends.{Received, payload_of, main-sends}
use stud_stuff.Sender.{LogMessage, split_loop, split_by_lines, main}

two_chunks : split_by_lines (codes "a\n\nb\nc") 3 ≡ codes "a\n\nb\n" ∷ codes "c\n" ∷ []
unfolding split_by_lines split_loop getline line_of after_line
two_chunks = refl

keep_all : List LogMessage → LogMessage → List LogMessage × (Bool × Bool)
keep_all got m = (got ++ m ∷ [], (true, true))

noon : ℕ → Bytes
noon i = codes "12:00"

abbrev log : Bytes
log = codes "10.0.0.7 GET\n8.8.8.8 PUT\n192.168.1.4 GET\n"

main-sends_example :
    (ms : List LogMessage) × (w' : List LogMessage) × (main keep_all noon (some log) [] ≡ (w', 0))
    × Received keep_all [] ms w'
    × All (λ m. m.source_service ≡ codes "ipv4_filter") ms
    × Chunked 3 (selected wanted (lines log)) (map payload_of ms)
main-sends_example = main-sends keep_all noon log []
