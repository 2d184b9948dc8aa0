-- ===== src/Sender.antt =====
-- m6-network/src: the helpers and the sender of log messages. The stub of gRPC and the clock are
-- arguments.
pub mod Chunks
pub mod Sends
mod Tests
use stud_stuff.Base.{
  ℕ, zero, suc, ◌+◌, Bool, true, false, ◌&&◌, List, [], ◌∷◌, ◌++◌, Option, none, some, Bytes, codes,
  ◌==◌, if◌then◌else◌, length,
}
use stud_stuff.NetLog.Composite.{CompositeFilter, Result, ok, err}
use stud_stuff.NetLog.Main.{make_filter}
use stud_stuff.NetLog.Stream.{Output, getline, process_stream}

pub record LogMessage : Type 0 where
  pub source_service : Bytes
  pub timestamp_utc : Bytes
  pub payload : Bytes

-- what is left in `chunk` at the end of the text
last_chunk : List Bytes → Bytes → List Bytes
last_chunk result [] = result
last_chunk result (c ∷ chunk) = result ++ (c ∷ chunk) ∷ []

-- the loop of `SplitByLines`, by fuel; each round takes at least a byte of the text
unfoldable pub split_loop : ℕ → ℕ → Bytes → List Bytes → Bytes → ℕ → List Bytes
unfolding last_chunk
split_loop zero n text result chunk count = result
split_loop (suc fuel) n text result chunk count = elim (getline text) [
  | none ↦ last_chunk result chunk
  | some (line, rest) ↦
      let chunk' = chunk ++ (line ++ b'\n' ∷ []) in
      let pushed = split_loop fuel n rest (result ++ chunk' ∷ []) [] 0 in
      let more = split_loop fuel n rest result chunk' (count + 1) in
      if count + 1 == n then pushed else more
]

unfoldable pub split_by_lines : Bytes → ℕ → List Bytes
split_by_lines text lines_per_chunk = split_loop (suc (length text)) lines_per_chunk text [] [] 0

-- `GetLogMessages`, with the readings of the clock from the `i`th on
unfoldable pub get_log_messages : (ℕ → Bytes) → ℕ → List Bytes → Bytes → List LogMessage
get_log_messages now i [] log_source = []
get_log_messages now i (payload ∷ payloads) log_source =
    record { source_service = log_source; timestamp_utc = now i; payload = payload }
    ∷ get_log_messages now (suc i) payloads log_source

module _ {ℓ} {W : Type ℓ} (stub : W → LogMessage → W × (Bool × Bool)) where
  -- `GrpcMessageSender::Send`: the status is ok, and the response tells of a success
  unfoldable pub send : W → LogMessage → W × Bool
  send w message = let r = stub w message in (r.0, r.1.0 && r.1.1)

  -- the loop of the program, which passes over what `Send` returns
  unfoldable pub send_all : W → List LogMessage → W
  send_all w [] = w
  send_all w (message ∷ messages) = send_all (send w message).0 messages

  transfer : (ℕ → Bytes) → Bytes → W → Result CompositeFilter → W × ℕ
  transfer now file w (err e) = (w, 1)
  transfer now file w (ok filter) =
      let out = process_stream filter file (record { text = []; flushes = 0 }) in
      let payloads = split_by_lines out.text 3 in
      (send_all w (get_log_messages now 0 payloads (codes "ipv4_filter")), 0)

  -- the program, on the bytes of a file, or `none` where it cannot be opened: the exit code
  unfoldable pub main : (ℕ → Bytes) → Option Bytes → W → W × ℕ
  unfolding transfer
  main now none w = (w, 1)
  main now (some file) w = transfer now file w make_filter
