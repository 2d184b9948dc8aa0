-- ===== src/NetLog/Tests.antt =====
-- m1-net-log-filtering-system: tests on inputs of its test files, and the theorems at inputs.
use stud_stuff.Base.{
  ℕ, ◌-◌, ◌/◌, ◌^◌, ◌≤◌, ◌<◌, true, List, [], ◌∷◌, ◌++◌, none, some, ◌≡◌, refl, ◌↔◌, ◌⊎◌, arith,
  Bytes, codes, bytes_eq, find_byte, length,
}
use stud_stuff.NetLog.Address.Octets.{octets_of, from_bytes-Decodes, Decodes}
use stud_stuff.NetLog.Address.Sound.{from_string_iff}
use stud_stuff.NetLog.Address.Spec.{Quad, IsQuad, dotted, number}
use stud_stuff.NetLog.Address.{
  IPv4Address, from_string, from_bytes, from_octets, octet_step, to_uint32, from_chars_u32,
}
use stud_stuff.NetLog.Composite
use stud_stuff.NetLog.Composite.{
  CompositeFilter, Error, ok, err, length_error, filter_config_error, unknown_type, max_filters,
}
use stud_stuff.NetLog.Config.Build.{Parsed, Stops, create_filter_iff, create_filter-err}
use stud_stuff.NetLog.Config.Meaning.{Admits, Some, create_filter-matches}
use stud_stuff.NetLog.Config.{FilterConfig, filter_config, create_filter, add_config, add_configs}
use stud_stuff.NetLog.Main.Selects.{wanted, main-selects}
use stud_stuff.NetLog.Main.{main, done, exit_code}
use stud_stuff.NetLog.Range
use stud_stuff.NetLog.Range.Exact.{IsInterval, interval, create_from_bounds_iff}
use stud_stuff.NetLog.Range.Meaning.{range_create-matches}
use stud_stuff.NetLog.Stream.Batches.{Processes, process-Processes}
use stud_stuff.NetLog.Stream.Entries.{parse_ip_from_line_iff}
use stud_stuff.NetLog.Stream.Lines.{lines, over, process_loop-over}
use stud_stuff.NetLog.Stream.Takes.{selected, unlines}
use stud_stuff.NetLog.Stream.{Output, Run, new, process, process_loop, parse_ip_from_line}
use stud_stuff.NetLog.Subnet
use stud_stuff.NetLog.Subnet.Exact.{IsCidr, subnet_create_iff}
use stud_stuff.NetLog.Subnet.Meaning.{subnet_create-matches}
use stud_stuff.NetLog.Subnet.{of_prefix, create_32_bit_mask}

abbrev home : Quad
home = record { a = 192; b = 168; c = 1; d = 10 }

abbrev last : Quad
last = record { a = 192; b = 168; c = 1; d = 99 }

abbrev address : Quad → IPv4Address
address q = record { addr = number q }

program : Unit {0}
unfolding from_string from_bytes from_octets octet_step from_chars_u32 bytes_eq find_byte
    Subnet.create Subnet.checked_prefix Subnet.from_chars_i32 Subnet.create_32_bit_mask
    Subnet.of_prefix Subnet.matches Range.create Range.create_from_bounds Range.matches
    filter_config create_filter add_config add_configs Composite.add Composite.matches
    Composite.any_matches Composite.visit
program = tt

refused :
    (from_string (codes "256.1.1.1") ≡ none)
    × (from_string (codes "01.1.1.1") ≡ none)
    × (from_string (codes "1.1.1") ≡ none)
    × (from_string (codes "1.1.1.1.") ≡ none)
    × (from_string (codes "1..1.1") ≡ none)
    × (from_string (codes "4294967296.1.1.1") ≡ none)
    × (from_string (codes "1.1.1.a") ≡ none)
    × (from_string [] ≡ none)
unfolding program
refused = (refl, refl, refl, refl, refl, refl, refl, refl)

-- A minus sign before zero is read as the prefix zero.
minus_zero_prefix : Subnet.create (codes "10.0.0.0/-0") ≡ some (record { network = 0; mask = 0 })
unfolding program
minus_zero_prefix = refl

from_string_iff_example : (from_string (codes "192.168.1.10") ≡ some (address home)) ↔ (
    (q : Quad) × IsQuad q
    × (codes "192.168.1.10" ≡ dotted q)
    × (address home ≡ record { addr = number q }))
from_string_iff_example = from_string_iff (codes "192.168.1.10") (address home)

abbrev net_text : Bytes
net_text = codes "192.168.1.0/24"

abbrev net : Subnet.SubnetFilter
net = record { network = 0xC0A80100; mask = 0xFFFFFF00 }

net_lem : Subnet.create net_text ≡ some net
unfolding program
net_lem = refl

subnet_create_iff_example : (Subnet.create net_text ≡ some net) ↔ (
    (q : Quad) × (p : ℕ) × IsCidr net_text q p × (net ≡ of_prefix (record { addr = number q }) p))
subnet_create_iff_example = subnet_create_iff net_text net

subnet_create-matches_example : (Subnet.matches net (address home) ≡ true) ↔ (
    (q : Quad) × (p : ℕ) × IsCidr net_text q p
    × (number home / 2 ^ (32 - p) ≡ number q / 2 ^ (32 - p)))
subnet_create-matches_example =
    subnet_create-matches net_text net (address home) net_lem (omega arith)

abbrev span_text : Bytes
span_text = codes "192.168.1.10-192.168.1.99"

span_lem : Range.create span_text ≡ some (interval home last)
unfolding program
span_lem = refl

create_from_bounds_iff_example :
    (Range.create_from_bounds (codes "192.168.1.10") (codes "192.168.1.99")
      ≡ some (interval home last))
    ↔ ((p : Quad) × (q : Quad) × IsInterval (codes "192.168.1.10") (codes "192.168.1.99") p q
        × (interval home last ≡ interval p q))
create_from_bounds_iff_example =
    create_from_bounds_iff (codes "192.168.1.10") (codes "192.168.1.99") (interval home last)

range_create-matches_example : (Range.matches (interval home last) (address last) ≡ true) ↔ (
    (left : Bytes) × (right : Bytes) × (p : Quad) × (q : Quad) × (span_text ≡ left ++ b'-' ∷ right)
    × IsInterval left right p q
    × (number p ≤ number last)
    × (number last ≤ number q))
range_create-matches_example =
    range_create-matches span_text (interval home last) (address last) span_lem

abbrev configs : List FilterConfig
configs =
    (record { type = codes "subnet"; value = net_text })
    ∷ (record { type = codes "range"; value = span_text })
    ∷ []

abbrev both : CompositeFilter
both = record { filters = Composite.subnet net ∷ Composite.range (interval home last) ∷ [] }

both_lem : create_filter configs ≡ ok both
unfolding program
both_lem = refl

create_filter_iff_example :
    (create_filter configs ≡ ok both)
    ↔ (Parsed configs both.filters × (length configs ≤ max_filters))
create_filter_iff_example = create_filter_iff configs both

abbrev odd : List FilterConfig
odd =
    (record { type = codes "subnet"; value = net_text })
    ∷ (record { type = codes "host"; value = [] })
    ∷ []

odd_lem : create_filter odd ≡ err (filter_config_error unknown_type)
unfolding program
odd_lem = refl

create_filter-err_example : Stops 0 odd (filter_config_error unknown_type)
create_filter-err_example = create_filter-err odd (filter_config_error unknown_type) odd_lem

create_filter-matches_example :
    (Composite.matches both (address home) ≡ true) ↔ Some (Admits (number home)) configs
create_filter-matches_example =
    create_filter-matches configs both (address home) both_lem (omega arith)

abbrev fields : List Bytes
fields = codes "type" ∷ codes "range" ∷ codes "value" ∷ span_text ∷ []

abbrev range_config : FilterConfig
range_config = record { type = codes "range"; value = span_text }

abbrev log : Bytes
log = codes "192.168.1.10 - in\nnoise\n10.0.0.7 - in\n10.9.9.9 - out"

abbrev blank : Output
blank = record { text = []; flushes = 0 }

abbrev begin : Run
begin = record { self = new 2; out = blank; line_number = 0 }

process_loop-over_example : process_loop 100 wanted log begin ≡ over wanted (lines log) begin
process_loop-over_example = process_loop-over wanted 100 log begin (omega arith)

parse_ip_from_line_iff_example :
    (parse_ip_from_line (codes "192.168.1.10 - in") ≡ some (address home)) ↔ (
      (q : Quad) × (message : Bytes) × IsQuad q
      × (codes "192.168.1.10 - in" ≡ dotted q ++ b' ' ∷ message)
      × (address home ≡ record { addr = number q }))
parse_ip_from_line_iff_example = parse_ip_from_line_iff (codes "192.168.1.10 - in") (address home)

process-Processes_example :
    Processes (selected wanted (lines log)) (new 2) blank (process wanted (new 2) log blank)
unfolding new
process-Processes_example = process-Processes wanted (new 2) log blank refl

main-selects_example :
    (out : Output) × (main (some log) ≡ done out)
    × (exit_code (main (some log)) ≡ 0)
    × (out.text ≡ unlines (selected wanted (lines log)))
main-selects_example = main-selects log

from_bytes-Decodes_example :
    (IsQuad home
      × ((ip : IPv4Address) × (from_bytes (octets_of home) ≡ some ip)
          × Decodes home (to_uint32 ip)
          × (to_uint32 ip < 2 ^ 32)))
    ⊎ (¬ (IsQuad home) × (from_bytes (octets_of home) ≡ none))
from_bytes-Decodes_example = from_bytes-Decodes home
