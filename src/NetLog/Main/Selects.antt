-- ===== src/NetLog/Main/Selects.antt =====
-- What the program prints for a file that it can open.
use stud_stuff.Base.{
  ℕ, ◌+◌, ◌*◌, ◌/◌, ◌^◌, ◌<◌, Bool, ◌&&◌, ◌||◌, List, [], ◌∷◌, some, ◌≡◌, refl, ap, ◌∙◌, arith,
  Bytes, leb, ◌==◌, inl, inr, bytes_eq, find_byte, Option-cases,
}
use stud_stuff.NetLog.Address.Spec.{Quad, number}
use stud_stuff.NetLog.Address.{IPv4Address, from_string, to_uint32, octet_step, from_octets}
use stud_stuff.NetLog.Composite.{
  CompositeFilter, subnet, range, ok, matches, visit, any_matches, add,
}
use stud_stuff.NetLog.Config.{filter_config, add_config, add_configs, create_filter}
use stud_stuff.NetLog.Main.{done, exit_code, make_filter, main, ending}
use stud_stuff.NetLog.Range
use stud_stuff.NetLog.Range.Exact.{interval}
use stud_stuff.NetLog.Range.Meaning.{matches-interval}
use stud_stuff.NetLog.Stream.Batches.{process-Processes}
use stud_stuff.NetLog.Stream.Entries.{parse_ip_from_line-lt}
use stud_stuff.NetLog.Stream.Lines.{lines}
use stud_stuff.NetLog.Stream.Takes.{selected, unlines}
use stud_stuff.NetLog.Stream.{Output, new, parse_ip_from_line, process_stream, default_batch_size}
use stud_stuff.NetLog.Subnet
use stud_stuff.NetLog.Subnet.Masks.{matches-of_prefix}
use stud_stuff.NetLog.Subnet.{of_prefix}

abbrev quad : ℕ → ℕ → ℕ → ℕ → Quad
quad a b c d = record { a = a; b = b; c = c; d = d }

abbrev pub the_filter : CompositeFilter
the_filter = record {
  filters =
      subnet (of_prefix (record { addr = number (quad 192 168 1 0) }) 24)
      ∷ range (interval (quad 10 0 0 1) (quad 10 0 0 100))
      ∷ [];
}

pub make_filter_lem : make_filter ≡ ok the_filter
unfolding make_filter filter_config create_filter add_configs add_config add bytes_eq find_byte
    Subnet.create Range.create from_string Subnet.checked_prefix Subnet.from_chars_i32 octet_step
    from_octets
make_filter_lem = refl

-- The block 192.168.1.0 to 192.168.1.255, or the interval 10.0.0.1 to 10.0.0.100.
pub wanted : IPv4Address → Bool
wanted ip =
    (ip.addr / 2 ^ 8 == (192 * 2 ^ 8 + 168) * 2 ^ 8 + 1)
    || (leb (10 * 2 ^ 24 + 1) ip.addr && leb ip.addr (10 * 2 ^ 24 + 100))

pub matches-wanted : (x : IPv4Address) → x.addr < 2 ^ 32 → matches the_filter x ≡ wanted x
unfolding matches any_matches visit wanted to_uint32
matches-wanted x lt =
    let block =
      matches-of_prefix 24 (record { addr = number (quad 192 168 1 0) }) x (omega arith)
        (omega arith) lt in
    let bounds = matches-interval (interval (quad 10 0 0 1) (quad 10 0 0 100)) x (omega arith) in
    ground (arith, block, bounds)

pub selected_congr :
    (a b : IPv4Address → Bool) (ls : List Bytes)
    → ((x : IPv4Address) → x.addr < 2 ^ 32 → a x ≡ b x)
    → selected a ls ≡ selected b ls
unfolding selected
selected_congr a b [] same = refl
selected_congr a b (l ∷ ls) same = elim (Option-cases (parse_ip_from_line l)) [
  | inl e ↦ rw (e, selected_congr a b ls same)
  | inr (x, e) ↦ rw (e, same x (parse_ip_from_line-lt l e), selected_congr a b ls same)
]

-- For a file that can be opened the program ends with code 0, and prints the lines that begin
-- with an address of 192.168.1.0/24 or of 10.0.0.1 to 10.0.0.100 and a space, in order.
pub main-selects :
    (file : Bytes)
    → (out : Output) × (main (some file) ≡ done out)
      × (exit_code (main (some file)) ≡ 0)
      × (out.text ≡ unlines (selected wanted (lines file)))
unfolding main exit_code ending new process_stream
main-selects file =
    let blank : Output = record { text = []; flushes = 0 } in
    let p = process-Processes (matches the_filter) (new default_batch_size) file blank refl in
    (
      process_stream the_filter file blank,
      rw make_filter_lem refl,
      rw make_filter_lem refl,
      p.text ∙ ap unlines (selected_congr _ wanted (lines file) matches-wanted),
    )
