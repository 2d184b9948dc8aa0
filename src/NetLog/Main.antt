-- ===== src/NetLog/Main.antt =====
-- m1-net-log-filtering-system/src/main.cc: the program. The file is its bytes, or `none` where it
-- cannot be opened; the messages on `std::cerr` are told apart, and not spelled.
pub mod Selects
use stud_stuff.Base.{
  ℕ, ◌+◌, ◌*◌, ◌/◌, ◌^◌, ◌≤◌, ◌<◌, Bool, true, false, ◌&&◌, ◌||◌, List, [], ◌∷◌, ◌++◌, Option, none,
  some, ◌≡◌, refl, ap, ◌∙◌, arith, Bytes, codes, bytes_eq, ltb, leb, ◌==◌, if◌then◌else◌, find_byte,
}
use stud_stuff.NetLog.Address.{IPv4Address, from_string, from_octets}
use stud_stuff.NetLog.Composite.{CompositeFilter, Error, Result, ok, err, ◌>>=◌}
use stud_stuff.NetLog.Config.{FilterConfig, filter_config, create_filter}
use stud_stuff.NetLog.Stream.{Output, process_stream}

pub data Ending : Type 0 where
  done : Output → Ending
  cannot_open : Ending
  caught : Error → Ending

unfoldable pub exit_code : Ending → ℕ
exit_code (done _) = 0
exit_code cannot_open = 1
exit_code (caught _) = 1

filter_configs : List (List Bytes) → Result (List FilterConfig)
filter_configs [] = ok []
filter_configs (il ∷ ils) = filter_config il >>= λ c. filter_configs ils >>= λ cs. ok (c ∷ cs)

abbrev arguments : List (List Bytes)
arguments =
    (codes "type" ∷ codes "subnet" ∷ codes "value" ∷ codes "192.168.1.0/24" ∷ [])
    ∷ (codes "type" ∷ codes "range" ∷ codes "value" ∷ codes "10.0.0.1-10.0.0.100" ∷ [])
    ∷ []

pub make_filter : Result CompositeFilter
unfolding filter_configs
make_filter = filter_configs arguments >>= create_filter

ending : Bytes → Result CompositeFilter → Ending
ending file (err e) = caught e
ending file (ok filter) = done (process_stream filter file (record { text = []; flushes = 0 }))

unfoldable pub main : Option Bytes → Ending
unfolding make_filter ending
main none = cannot_open
main (some file) = ending file make_filter
