-- ===== src/Stats/Render.antt =====
-- internal/stats/stats.go: the renderings of a snapshot and LogEvery, and internal/quictransport/stats.go.
-- A text is the list of its bytes.
pub mod Numbers
pub mod Reads
mod Tests
use Prim.Native.Char.{code}
use Prim.Native.String.{String}
use mvp_vpn_lite.Base.{
  ℕ, zero, suc, ◌+◌, ◌/◌, ◌%◌, Bool, true, false, Option, none, some, List, [], ◌∷◌, ◌++◌, ltb,
  if◌then◌else◌,
}
use mvp_vpn_lite.Base.Int.{ℤ, pos, negsuc}
use mvp_vpn_lite.Stats.Snapshot.{Snapshot}

abbrev pub Text : Type 0
Text = List ℕ

abbrev pub codes : String → Text
codes String.[] = []
codes (String.◌∷◌ c s) = code c ∷ codes s

-- The decimal digits of a number below 10 ^ fuel.
unfoldable pub decimal : ℕ → ℕ → Text
decimal zero n = []
decimal (suc fuel) n =
    let front = decimal fuel (n / 10) in
    if ltb n 10 then (b'0' + n) ∷ [] else front ++ ((b'0' + n % 10) ∷ [])

-- A uint64 has 20 digits at most.
unfoldable pub format_uint64 : ℕ → Text
unfolding decimal
format_uint64 n = decimal 20 n

-- `fmt.Sprintf` of a format without other verbs than %d: the texts around the verbs, and the numbers.
unfoldable pub sprintf : List Text → List ℕ → Text
sprintf [] numbers = []
sprintf (t ∷ format) [] = t
sprintf (t ∷ format) (n ∷ numbers) = t ++ (format_uint64 n ++ sprintf format numbers)

abbrev pub values : Snapshot → List ℕ
values s = s.rx_packets ∷ s.rx_bytes ∷ s.tx_packets ∷ s.tx_bytes ∷ s.dropped_packets ∷ s.errors ∷ []

abbrev pub text_format : List Text
text_format =
    codes "rx="
    ∷ codes " packets/"
    ∷ codes " bytes tx="
    ∷ codes " packets/"
    ∷ codes " bytes dropped="
    ∷ codes " errors="
    ∷ []
    ∷ []

-- The names of the fields, as json.Marshal writes them; it does not fail on such a record.
abbrev pub json_format : List Text
json_format =
    codes "{\"rx_packets\":"
    ∷ codes ",\"rx_bytes\":"
    ∷ codes ",\"tx_packets\":"
    ∷ codes ",\"tx_bytes\":"
    ∷ codes ",\"dropped_packets\":"
    ∷ codes ",\"errors\":"
    ∷ codes "}"
    ∷ []

unfoldable pub text_snapshot : Snapshot → Text
text_snapshot s = sprintf text_format (values s)

unfoldable pub json_snapshot : Snapshot → Text
json_snapshot s = sprintf json_format (values s)

unfoldable pub stats_snapshot_formatter : Bool → Snapshot → Text
stats_snapshot_formatter json_output snapshot =
    if json_output then json_snapshot snapshot else text_snapshot snapshot

-- What `select` takes: a tick, with the snapshot that is then taken, or the end of the context.
pub data LogEvent : Type 0 where
  tick : Snapshot → LogEvent
  ctx_done : LogEvent

-- The formatter of a call that may give none, or nil.
abbrev pub formatter_of : List (Option (Snapshot → Text)) → Snapshot → Text
formatter_of [] = text_snapshot
formatter_of (none ∷ formatters) = text_snapshot
formatter_of (some formatter ∷ formatters) = formatter

unfoldable pub log_ticks : (Snapshot → Text) → List LogEvent → List Text
log_ticks formatter [] = []
log_ticks formatter (ctx_done ∷ events) = []
log_ticks formatter (tick snapshot ∷ events) =
    (codes "stats: " ++ formatter snapshot) ∷ log_ticks formatter events

-- The lines that LogEvery logs; `given` says that there are counters and a `logf`.
unfoldable pub log_every : ℤ → Bool → List (Option (Snapshot → Text)) → List LogEvent → List Text
unfolding log_ticks
log_every (pos zero) given formatters events = []
log_every (negsuc n) given formatters events = []
log_every (pos (suc n)) false formatters events = []
log_every (pos (suc n)) true formatters events = log_ticks (formatter_of formatters) events
