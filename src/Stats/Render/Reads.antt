-- ===== src/Stats/Render/Reads.antt =====
-- A rendered snapshot can be read back.
use mathlib.Core.List.{append-nil}
use mvp_vpn_lite.Base.{
  ℕ, ◌^◌, ◌<◌, ◌≡◌, refl, ap, arith, false, ◌==◌, Option, none, some, List, [], ◌∷◌, ◌++◌, All,
  if◌then◌else◌,
}
use mvp_vpn_lite.Stats.Snapshot.{Snapshot}
use mvp_vpn_lite.Stats.Render.Numbers.{is_digit, read_number, Breaks, read_number-format_uint64}
use mvp_vpn_lite.Stats.Render.{
  Text, codes, format_uint64, sprintf, values, text_format, json_format, text_snapshot,
  json_snapshot,
}

pub strip_prefix : Text → Text → Option Text
strip_prefix [] s = some s
strip_prefix (c ∷ t) [] = none
strip_prefix (c ∷ t) (d ∷ s) = let rest = strip_prefix t s in if c == d then rest else none

pub after_last : Option Text → Option (List ℕ)
after_last (some []) = some []
after_last (some (c ∷ s)) = none
after_last none = none

pub add_number : ℕ → Option (List ℕ) → Option (List ℕ)
add_number n (some numbers) = some (n ∷ numbers)
add_number n none = none

pub after_prefix : (Text → Option (List ℕ)) → Option Text → Option (List ℕ)
after_prefix again (some s) = let (n, rest) = read_number 0 s in add_number n (again rest)
after_prefix again none = none

-- The numbers of a text in a format.
pub read_format : List Text → Text → Option (List ℕ)
read_format [] s = none
read_format (t ∷ []) s = after_last (strip_prefix t s)
read_format (t ∷ u ∷ format) s = after_prefix (read_format (u ∷ format)) (strip_prefix t s)

-- A text that stands before a number, and the count that the number is.
abbrev pub Label : Type 0
Label = Text × (ℕ → Snapshot → Snapshot)

-- What a reader of the log knows of the text: received packets and bytes come after "rx=", sent ones
-- after "tx=", then the dropped packets and the errors.
abbrev pub text_labels : List Label
text_labels =
    (codes "rx=", λ n s. record s { rx_packets = n })
    ∷ (codes " packets/", λ n s. record s { rx_bytes = n })
    ∷ (codes " bytes tx=", λ n s. record s { tx_packets = n })
    ∷ (codes " packets/", λ n s. record s { tx_bytes = n })
    ∷ (codes " bytes dropped=", λ n s. record s { dropped_packets = n })
    ∷ (codes " errors=", λ n s. record s { errors = n })
    ∷ []

-- And of the JSON: the name of each count, in the object's order.
abbrev pub json_labels : List Label
json_labels =
    (codes "{\"rx_packets\":", λ n s. record s { rx_packets = n })
    ∷ (codes ",\"rx_bytes\":", λ n s. record s { rx_bytes = n })
    ∷ (codes ",\"tx_packets\":", λ n s. record s { tx_packets = n })
    ∷ (codes ",\"tx_bytes\":", λ n s. record s { tx_bytes = n })
    ∷ (codes ",\"dropped_packets\":", λ n s. record s { dropped_packets = n })
    ∷ (codes ",\"errors\":", λ n s. record s { errors = n })
    ∷ []

pub format_of : List Label → Text → List Text
format_of [] last = last ∷ []
format_of ((label, set) ∷ labels) last = label ∷ format_of labels last

pub set_counts : List Label → List ℕ → Snapshot → Option Snapshot
set_counts [] [] s = some s
set_counts [] (n ∷ numbers) s = none
set_counts (label ∷ labels) [] s = none
set_counts ((label, set) ∷ labels) (n ∷ numbers) s = set_counts labels numbers (set n s)

abbrev zero_snapshot : Snapshot
zero_snapshot = record {
  rx_packets = 0;
  rx_bytes = 0;
  tx_packets = 0;
  tx_bytes = 0;
  dropped_packets = 0;
  errors = 0;
}

pub read_counts : List Label → Option (List ℕ) → Option Snapshot
unfolding set_counts
read_counts labels (some numbers) = set_counts labels numbers zero_snapshot
read_counts labels none = none

-- The snapshot in a text that consists of the labels, each before its number, and a last text.
pub read_snapshot : List Label → Text → Text → Option Snapshot
unfolding read_format format_of read_counts
read_snapshot labels last t = read_counts labels (read_format (format_of labels last) t)

strip_prefix-append : (t s : Text) → strip_prefix t (t ++ s) ≡ some s
unfolding strip_prefix
strip_prefix-append [] s = refl
strip_prefix-append (c ∷ t) s = ground (arith, strip_prefix-append t s)

-- What follows a number begins with no digit, or is the empty end of the format.
abbrev Stops : Text → List Text → Type 0
Stops [] [] = Unit
Stops [] (t ∷ format) = ⊥
Stops (c ∷ t) format = is_digit c ≡ false

-- The numbers fit the format, and each can be told from what follows it.
abbrev Fits : List Text → List ℕ → Type 0
Fits [] numbers = ⊥
Fits (t ∷ []) [] = Unit
Fits (t ∷ []) (n ∷ numbers) = ⊥
Fits (t ∷ u ∷ format) [] = ⊥
Fits (t ∷ u ∷ format) (n ∷ numbers) = (n < 2 ^ 64) × Stops u format × Fits (u ∷ format) numbers

sprintf-Breaks :
    (u : Text) (format : List Text) (numbers : List ℕ)
    → Stops u format
    → Fits (u ∷ format) numbers
    → Breaks (sprintf (u ∷ format) numbers)
unfolding sprintf
sprintf-Breaks [] [] [] stops fits = tt
sprintf-Breaks [] [] (n ∷ numbers) stops fits = absurd fits
sprintf-Breaks [] (t ∷ format) numbers stops fits = absurd stops
sprintf-Breaks (c ∷ u) [] [] stops fits = stops
sprintf-Breaks (c ∷ u) [] (n ∷ numbers) stops fits = absurd fits
sprintf-Breaks (c ∷ u) (t ∷ format) [] stops fits = absurd fits
sprintf-Breaks (c ∷ u) (t ∷ format) (n ∷ numbers) stops fits = stops

strip_prefix_self : (t : Text) → strip_prefix t t ≡ some []
strip_prefix_self t = rw (append-nil t) at (strip_prefix-append t [])

read_format-sprintf :
    (format : List Text) (numbers : List ℕ)
    → Fits format numbers
    → read_format format (sprintf format numbers) ≡ some numbers
unfolding read_format after_last after_prefix add_number sprintf
read_format-sprintf [] numbers fits = absurd fits
read_format-sprintf (t ∷ []) [] fits = rw (strip_prefix_self t) refl
read_format-sprintf (t ∷ []) (n ∷ numbers) fits = absurd fits
read_format-sprintf (t ∷ u ∷ format) [] fits = absurd fits
read_format-sprintf (t ∷ u ∷ format) (n ∷ numbers) (small, stops, fits) =
    let rest = sprintf (u ∷ format) numbers in
    rw
      (
        strip_prefix-append t (format_uint64 n ++ rest),
        read_number-format_uint64 n rest small (sprintf-Breaks u format numbers stops fits),
        read_format-sprintf (u ∷ format) numbers fits,
      )
      refl

-- The counts are uint64.
abbrev pub IsUint64 : Snapshot → Type 0
IsUint64 s = All (λ n. n < 2 ^ 64) (values s)

-- The text and the JSON rendering of a snapshot of uint64 counts lose nothing: a reader that has a table
-- of its own, of what stands before each count, reads every count back from either, as the count that
-- it is.
pub snapshot-read :
    (s : Snapshot)
    → IsUint64 s
    → (read_snapshot text_labels [] (text_snapshot s) ≡ some s)
      × (read_snapshot json_labels (codes "}") (json_snapshot s) ≡ some s)
unfolding text_snapshot json_snapshot read_snapshot format_of read_counts set_counts
snapshot-read s (a, (b, (c, (d, (e, (f, _)))))) = (
  ap (read_counts text_labels) (
      read_format-sprintf text_format (values s)
        (a, refl, (b, refl, (c, refl, (d, refl, (e, refl, (f, tt, tt))))))),
  ap (read_counts json_labels) (
      read_format-sprintf json_format (values s)
        (a, refl, (b, refl, (c, refl, (d, refl, (e, refl, (f, refl, tt))))))),
)
