-- ===== src/Metrics.antt =====
-- internal/metrics/metrics.go: counters, gauges and histograms, and the page that shows them. A method runs under the
-- registry's mutex, so it is one step. Decoding a string into runes, `strconv.Quote` and the verb `%g` are
-- parameters.
pub mod Counts
pub mod Page
use aether_serve.Base.{
  ℕ, ◌+◌, ◌||◌, ◌&&◌, Bool, true, false, leb, ◌==◌, if◌then◌else◌, Option, none, some, List, [],
  ◌∷◌, ◌++◌, map, add_u64,
}
use aether_serve.Base.Text.{GoString, str, str_eq, decimal}
use aether_serve.Base.Map.{Map, lookup, insert}
use aether_serve.Base.Sort.{sort_by}
use aether_serve.Float.{Float, zero_float}

pub record Histogram (F : Type 0) : Type 0 where
  pub count : ℕ
  pub sum : F

pub record LabeledKey : Type 0 where
  pub name : GoString
  pub label : GoString
  pub value : GoString

abbrev pub key_eq : LabeledKey → LabeledKey → Bool
key_eq a b = str_eq a.name b.name && str_eq a.label b.label && str_eq a.value b.value

-- A Go map keyed by the struct.
abbrev pub LabeledMap : Type 0 → Type 0
LabeledMap V = List (LabeledKey × V)

unfoldable pub find : {V : Type 0} → LabeledKey → LabeledMap V → Option V
find k [] = none
find k ((j, v) ∷ m) = if key_eq j k then some v else find k m

unfoldable pub assign : {V : Type 0} → LabeledKey → V → LabeledMap V → LabeledMap V
assign k v [] = (k, v) ∷ []
assign k v ((j, w) ∷ m) = if key_eq j k then (k, v) ∷ m else (j, w) ∷ assign k v m

pub record Registry (F : Type 0) : Type 0 where
  pub counters : Map ℕ
  pub labeled_counters : LabeledMap ℕ
  pub gauges : Map F
  pub labeled_gauges : LabeledMap F
  pub histograms : Map (Histogram F)

abbrev pub new : {F : Type 0} → Registry F
new = record {
  counters = [];
  labeled_counters = [];
  gauges = [];
  labeled_gauges = [];
  histograms = [];
}

-- A missing counter reads as 0.
abbrev pub or_zero : Option ℕ → ℕ
or_zero none = 0
or_zero (some n) = n

module _ {F : Type 0} where
  unfoldable pub add : Registry F → GoString → ℕ → Registry F
  add r name value = record r {
    counters = insert name (add_u64 (or_zero (lookup name r.counters)) value) r.counters;
  }

  unfoldable pub inc : Registry F → GoString → Registry F
  inc r name = record r {
    counters = insert name (add_u64 (or_zero (lookup name r.counters)) 1) r.counters;
  }

  unfoldable pub inc_label : Registry F → GoString → GoString → GoString → Registry F
  inc_label r name label value =
      let key : LabeledKey = record { name = name; label = label; value = value } in
      record r {
        labeled_counters =
            assign key (add_u64 (or_zero (find key r.labeled_counters)) 1) r.labeled_counters;
      }

  unfoldable pub set_gauge : Registry F → GoString → F → Registry F
  set_gauge r name value = record r { gauges = insert name value r.gauges }

  unfoldable pub set_label : Registry F → GoString → GoString → GoString → F → Registry F
  set_label r name label value number = record r {
    labeled_gauges =
        assign (record { name = name; label = label; value = value }) number r.labeled_gauges;
  }

module _ {F : Type 0} ⦃fl : Float F⦄ where
  -- A missing histogram reads as zero.
  abbrev pub or_empty : Option (Histogram F) → Histogram F
  or_empty none = record { count = 0; sum = zero_float }
  or_empty (some h) = h

  unfoldable pub observe : Registry F → GoString → F → Registry F
  observe r name value =
      let h : Histogram F = or_empty (lookup name r.histograms) in
      record r {
        histograms =
            insert name (record { count = add_u64 h.count 1; sum = fl.add h.sum value })
              r.histograms;
      }

-- The library calls of the page.
pub record Formats (F : Type 0) : Type 0 where
  pub runes : GoString → List ℕ
  pub quote : GoString → GoString
  pub general : F → GoString

abbrev pub is_plain : ℕ → Bool
is_plain r = leb 97 r && leb r 122 || leb 65 r && leb r 90 || leb 48 r && leb r 57 || r == 95

abbrev pub plain : ℕ → ℕ
plain r = if is_plain r then r else 95

-- The keys in order.
abbrev pub names : {V : Type 0} → Map V → List GoString
names m = sort_by (λ (n : GoString). n) (map (λ e. e.0) m)

-- "%s %d\n" and "%s %g\n".
abbrev pub line : GoString → GoString → GoString
line name value = name ++ 32 ∷ value ++ 10 ∷ []

module _ {F : Type 0} (fmt : Formats F) where
  -- `sanitize`: every rune that is not plain becomes an underscore.
  unfoldable pub sanitize : GoString → GoString
  sanitize name = map plain (fmt.runes name)

  unfoldable pub format_key : LabeledKey → GoString
  format_key key =
      sanitize key.name
      ++ str "{"
      ++ sanitize key.label
      ++ str "="
      ++ fmt.quote key.value
      ++ str "}"

  abbrev pub labels : {V : Type 0} → LabeledMap V → List LabeledKey
  labels m = sort_by format_key (map (λ e. e.0) m)

  abbrev pub counter_line : Map ℕ → GoString → GoString
  counter_line m name = line (sanitize name) (decimal (or_zero (lookup name m)))

  abbrev pub labeled_line : LabeledMap ℕ → LabeledKey → GoString
  labeled_line m key = line (format_key key) (decimal (or_zero (find key m)))

module _ {F : Type 0} ⦃fl : Float F⦄ (fmt : Formats F) where
  abbrev pub or_zero_float : Option F → F
  or_zero_float none = zero_float
  or_zero_float (some x) = x

  abbrev pub gauge_line : Map F → GoString → GoString
  gauge_line m name = line (sanitize fmt name) (fmt.general (or_zero_float (lookup name m)))

  abbrev pub labeled_gauge_line : LabeledMap F → LabeledKey → GoString
  labeled_gauge_line m key = line (format_key fmt key) (fmt.general (or_zero_float (find key m)))

  abbrev pub histogram_line : Map (Histogram F) → GoString → GoString
  histogram_line m name =
      let h : Histogram F = or_empty (lookup name m) in
      line (sanitize fmt name ++ str "_count") (decimal h.count)
      ++ line (sanitize fmt name ++ str "_sum") (fmt.general h.sum)

  -- `Handler`: the lines of the page, in order.
  unfoldable pub page : Registry F → List GoString
  page r =
      map (counter_line fmt r.counters) (names r.counters)
      ++ map (labeled_line fmt r.labeled_counters) (labels fmt r.labeled_counters)
      ++ map (gauge_line r.gauges) (names r.gauges)
      ++ map (labeled_gauge_line r.labeled_gauges) (labels fmt r.labeled_gauges)
      ++ map (histogram_line r.histograms) (names r.histograms)
