-- ===== src/NetLog/Stream/Entries.antt =====
-- Which lines have an address: `ParseIPFromLine`.
use stud_stuff.Base.{
  ◌^◌, ◌<◌, ◌∷◌, ◌++◌, some, ◌≡◌, refl, ◌↔◌, arith, Bytes, bind-eq-some, take, drop, find_byte,
  find_byte-splits, find_byte-append, take-length-append, suc,
}
use stud_stuff.NetLog.Address.Digits.{symbols-Lacks}
use stud_stuff.NetLog.Address.Parse.{symbols-dotted, from_string-dotted}
use stud_stuff.NetLog.Address.Sound.{from_string_sound}
use stud_stuff.NetLog.Address.Spec.{Quad, IsQuad, dotted, number}
use stud_stuff.NetLog.Address.{IPv4Address}
use stud_stuff.NetLog.Stream.{parse_ip_from_line}

line_sound :
    (line : Bytes) {ip : IPv4Address}
    → parse_ip_from_line line ≡ some ip
    → (q : Quad) × (message : Bytes) × IsQuad q
      × (line ≡ dotted q ++ b' ' ∷ message)
      × (ip ≡ record { addr = number q })
unfolding parse_ip_from_line
line_sound line h =
    let (i, found, parsed) = bind-eq-some (find_byte b' ' line) _ h in
    let (q, bytes, text, same) = from_string_sound (take i line) parsed in
    (q, drop (suc i) line, bytes, rw (← text) (find_byte-splits b' ' line i found), same)

line_complete :
    (q : Quad) (message : Bytes)
    → IsQuad q
    → parse_ip_from_line (dotted q ++ b' ' ∷ message) ≡ some (record { addr = number q })
unfolding parse_ip_from_line
line_complete q message h = rw (
  find_byte-append b' ' (dotted q) message
      (symbols-Lacks b' ' (dotted q) refl refl (symbols-dotted q h)),
  take-length-append (dotted q) (b' ' ∷ message),
  from_string-dotted q h,
)

-- A line has an address exactly when it is a dotted quad, a space and any message.
pub parse_ip_from_line_iff :
    (line : Bytes) (ip : IPv4Address)
    → (parse_ip_from_line line ≡ some ip) ↔ (
        (q : Quad) × (message : Bytes) × IsQuad q
        × (line ≡ dotted q ++ b' ' ∷ message)
        × (ip ≡ record { addr = number q }))
parse_ip_from_line_iff line ip =
    (line_sound line, λ (q, message, h, text, same). rw (text, same) (line_complete q message h))

pub parse_ip_from_line-lt :
    (line : Bytes) {ip : IPv4Address} → parse_ip_from_line line ≡ some ip → ip.addr < 2 ^ 32
parse_ip_from_line-lt line h =
    let (q, _, bytes, _, same) = line_sound line h in rw same (omega arith)
