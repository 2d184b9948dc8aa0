-- ===== src/NetLog/Stream.antt =====
-- m1-net-log-filtering-system/include/details/stream_processor.h: `StreamProcessor`, and
-- `ProcessStream` of include/net_logger/net_logger.h. The input stream is the bytes that are left,
-- the output stream the bytes written with the number of flushes.
pub mod Entries
pub mod Lines
pub mod Takes
pub mod Unlines
pub mod Batches
use stud_stuff.Base.{
  ℕ, zero, suc, ◌+◌, ◌≤◌, Bool, true, false, not, List, [], ◌∷◌, ◌++◌, Option, none, some, Bytes,
  leb, ltb, ◌==◌, if◌then◌else◌, ◌>>=◌, length, take, find_byte,
}
use stud_stuff.NetLog.Address.{IPv4Address, from_string}
use stud_stuff.NetLog.Composite
use stud_stuff.NetLog.Composite.{CompositeFilter}

pub record LogEntry : Type 0 where
  pub ip : IPv4Address
  pub line : Bytes
  pub line_number : ℕ

pub record StreamProcessor : Type 0 where
  pub buffer : List LogEntry
  pub batch_size : ℕ

pub record Output : Type 0 where
  pub text : Bytes
  pub flushes : ℕ

abbrev pub default_batch_size : ℕ
default_batch_size = 1000

-- the constructor; `reserve` changes no contents
unfoldable pub new : ℕ → StreamProcessor
new batch_size = record { buffer = []; batch_size = batch_size }

-- `std::getline`: up to the next newline, which is dropped, or to the end; it fails at the end.
unfoldable pub line_of : Bytes → Bytes
line_of [] = []
line_of (c ∷ s) = if c == b'\n' then [] else c ∷ line_of s

unfoldable pub after_line : Bytes → Bytes
after_line [] = []
after_line (c ∷ s) = if c == b'\n' then s else after_line s

unfoldable pub getline : Bytes → Option (Bytes × Bytes)
unfolding line_of after_line
getline [] = none
getline (c ∷ s) = some (line_of (c ∷ s), after_line (c ∷ s))

unfoldable pub parse_ip_from_line : Bytes → Option IPv4Address
parse_ip_from_line line = find_byte b' ' line >>= λ end. from_string (take end line)

-- `std::ranges::copy` of the lines into an `ostream_iterator` with "\n" behind each.
unfoldable pub render : List LogEntry → Bytes
render [] = []
render (e ∷ es) = e.line ++ (b'\n' ∷ render es)

unfoldable pub is_empty : List LogEntry → Bool
is_empty [] = true
is_empty (_ ∷ _) = false

unfoldable pub flush_buffer : StreamProcessor → Output → StreamProcessor × Output
unfolding is_empty
flush_buffer self out = if is_empty self.buffer then (self, out) else (
  record self { buffer = [] },
  record { text = out.text ++ render self.buffer; flushes = out.flushes + 1 },
)

-- `if (ip && filter.Matches(*ip)) buffer_.push_back({*ip, line, line_number});`
unfoldable pub keep :
    (IPv4Address → Bool) → Bytes → ℕ → Option IPv4Address → List LogEntry → List LogEntry
keep accepts line number none buffer = buffer
keep accepts line number (some ip) buffer =
    if accepts ip
    then buffer ++ (record { ip = ip; line = line; line_number = number }) ∷ []
    else buffer

-- `if (buffer_.size() >= batch_size_) FlushBuffer(output);`
unfoldable pub flush_if_full : StreamProcessor → Output → StreamProcessor × Output
flush_if_full self out =
    if leb self.batch_size (length self.buffer) then flush_buffer self out else (self, out)

-- `if (!buffer_.empty()) FlushBuffer(output);`
unfoldable pub flush_rest : StreamProcessor → Output → StreamProcessor × Output
unfolding is_empty
flush_rest self out = if not (is_empty self.buffer) then flush_buffer self out else (self, out)

-- the variables of the loop of `Process`
pub record Run : Type 0 where
  pub self : StreamProcessor
  pub out : Output
  pub line_number : ℕ

-- One round, on the line that `getline` read.
unfoldable pub process_line : (IPv4Address → Bool) → Bytes → Run → Run
process_line accepts line r =
    let number = r.line_number + 1 in
    let self = record r.self {
      buffer = keep accepts line number (parse_ip_from_line line) r.self.buffer;
    } in
    let (self', out') = flush_if_full self r.out in
    record { self = self'; out = out'; line_number = number }

-- `while (std::getline(input, line))`, by fuel; each round takes at least a byte of the input.
unfoldable pub process_loop : ℕ → (IPv4Address → Bool) → Bytes → Run → Run
process_loop zero accepts input r = r
process_loop (suc fuel) accepts input r = elim (getline input) [
  | none ↦ r
  | some (line, rest) ↦ process_loop fuel accepts rest (process_line accepts line r)
]

-- `Process`, at a filter's `Matches`
unfoldable pub process :
    (IPv4Address → Bool) → StreamProcessor → Bytes → Output → StreamProcessor × Output
process accepts self input out =
    let r =
      process_loop (suc (length input)) accepts input
        (record { self = self; out = out; line_number = 0 }) in
    flush_rest r.self r.out

unfoldable pub process_stream : CompositeFilter → Bytes → Output → Output
process_stream filter input out =
    (process (Composite.matches filter) (new default_batch_size) input out).1
