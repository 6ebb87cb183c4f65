-- ===== src/Report.antt =====
-- gateway/crates/sentin-ui/src/report.rs: an audit file, counted. Reading one line as JSON is a parameter.
-- A `BTreeMap` is the list of its entries, a `BTreeSet` that of its elements.
pub mod Laws
use sentin_npu.Config.{text_eq}
use sentin_npu.Core.Device.{is_char_boundary}
use sentin_npu.Editor.File.{split_lines}
use sentin_npu.Extract.Office.{is_blank}
use sentin_npu.Record.{text_lt}
use sentin_npu.Prelude.{
  ℕ, suc, ◌+◌, Bool, true, false, ◌&&◌, ◌||◌, not, List, [], ◌∷◌, ◌++◌, map, reverse, Option, none,
  some, leb, ◌==◌, if◌then◌else◌, any, is_empty, length, take, Bytes, codes,
}

pub record Line : Type 0 where
  pub ts : Bytes
  pub event : Bytes
  pub detector : Option Bytes
  pub decision : Option Bytes
  pub device : Option Bytes
  pub upstream_model : Option Bytes
  pub provider : Option Bytes
  pub client_addr : Option Bytes
  pub source : Option Bytes
  pub attachment_kind : Option Bytes
  pub attachment_sha256 : Option Bytes

abbrev pub Tally : Type 0
Tally = List (Bytes × ℕ)

pub record Report : Type 0 where
  pub events : ℕ
  pub malformed : ℕ
  pub first_ts : Bytes
  pub last_ts : Bytes
  pub detectors : Tally
  pub decisions : Tally
  pub devices : Tally
  pub models : Tally
  pub providers : Tally
  pub callers : Tally
  pub sources : Tally
  pub attachment_kinds : Tally
  pub daily : Tally
  pub blocked : ℕ
  pub masked : ℕ
  pub skipped_attachments : ℕ
  -- The digests seen; their number is what is reported.
  pub digests : List Bytes

abbrev pub no_report : Report
no_report = record {
  events = 0;
  malformed = 0;
  first_ts = [];
  last_ts = [];
  detectors = [];
  decisions = [];
  devices = [];
  models = [];
  providers = [];
  callers = [];
  sources = [];
  attachment_kinds = [];
  daily = [];
  blocked = 0;
  masked = 0;
  skipped_attachments = 0;
  digests = [];
}

abbrev pub distinct_attachments : Report → ℕ
distinct_attachments r = length r.digests

-- `*tally.entry(key).or_default() += 1`, by the order of the keys.
unfoldable pub count : Bytes → Tally → Tally
count key [] = (key, 1) ∷ []
count key ((k, n) ∷ tally) =
    let rest = count key tally in
    if text_eq k key
    then (k, suc n) ∷ tally
    else if text_lt key k
    then (key, 1) ∷ (k, n) ∷ tally
    else (k, n) ∷ rest

abbrev pub bump : Tally → Option Bytes → Tally
bump tally none = tally
bump tally (some value) = if is_empty value then tally else count value tally

-- `BTreeSet::insert`; only the number of elements is used.
abbrev pub add_digest : List Bytes → Option Bytes → List Bytes
add_digest digests none = digests
add_digest digests (some d) = if any (λ x. text_eq x d) digests then digests else d ∷ digests

-- `record.ts.get(..10)`
abbrev pub count_day : Tally → Bytes → Tally
count_day daily ts =
    if leb 10 (length ts) && is_char_boundary ts 10 then count (take 10 ts) daily else daily

abbrev pub or_prompt : Option Bytes → Bytes
or_prompt none = codes "prompt"
or_prompt (some source) = source

abbrev pub is_text : Option Bytes → Bytes → Bool
is_text none word = false
is_text (some s) word = text_eq s word

abbrev pub add_if : Bool → ℕ → ℕ
add_if true n = suc n
add_if false n = n

abbrev pub first_of : Bytes → Bytes → Bytes
first_of ts first_ts = if is_empty first_ts || text_lt ts first_ts then ts else first_ts

abbrev pub last_of : Bytes → Bytes → Bytes
last_of ts last_ts = if text_lt last_ts ts then ts else last_ts

abbrev pub with_time : Bytes → Report → Report
with_time ts r =
    if is_empty ts
    then r
    else record r { first_ts = first_of ts r.first_ts; last_ts = last_of ts r.last_ts }

abbrev pub with_finding : Line → Report → Report
with_finding line r = record r {
  detectors = bump r.detectors line.detector;
  decisions = bump r.decisions line.decision;
  devices = bump r.devices line.device;
  sources = bump r.sources (some (or_prompt line.source));
  attachment_kinds = bump r.attachment_kinds line.attachment_kind;
  digests = add_digest r.digests line.attachment_sha256;
  daily = count_day r.daily line.ts;
  blocked = add_if (is_text line.decision (codes "blocked")) r.blocked;
  masked = add_if (is_text line.decision (codes "masked")) r.masked;
}

abbrev pub with_skipped : Line → Report → Report
with_skipped line r = record r {
  skipped_attachments = suc r.skipped_attachments;
  attachment_kinds = bump r.attachment_kinds line.attachment_kind;
}

abbrev pub with_kind : Line → Report → Report
with_kind line r =
    if text_eq line.event (codes "pii_detected")
    then with_finding line r
    else if text_eq line.event (codes "attachment_skipped")
    then with_skipped line r
    else r

abbrev pub with_names : Line → Report → Report
with_names line r = record r {
  models = bump r.models line.upstream_model;
  providers = bump r.providers line.provider;
  callers = bump r.callers line.client_addr;
}

-- One line that is not blank.
abbrev pub with_line : Option Line → Report → Report
with_line none r = record r { malformed = suc r.malformed }
with_line (some line) r =
    with_names line (with_kind line (with_time line.ts (record r { events = suc r.events })))

-- A line that a newline ends loses the carriage return in front of it.
abbrev pub chomped : List ℕ → Bytes
chomped [] = []
chomped (b ∷ s) = if b == 13 then reverse s else reverse (b ∷ s)

-- `str::lines`: what stands behind the last newline is a line unless it is empty.
unfoldable pub finished_lines : List Bytes → List Bytes
finished_lines [] = []
finished_lines (line ∷ []) = if is_empty line then [] else line ∷ []
finished_lines (line ∷ next ∷ lines) = chomped (reverse line) ∷ finished_lines (next ∷ lines)

unfoldable pub lines_of : Bytes → List Bytes
unfolding split_lines finished_lines
lines_of text = finished_lines (split_lines text)

module _ (from_str : Bytes → Option Line) where
  unfoldable pub add_lines : List Bytes → Report → Report
  unfolding count is_blank is_char_boundary
  add_lines [] r = r
  add_lines (line ∷ lines) r =
      add_lines lines (if is_blank (length line) line then r else with_line (from_str line) r)

  unfoldable pub from_jsonl : Bytes → Report
  unfolding add_lines lines_of
  from_jsonl text = add_lines (lines_of text) no_report

-- `values().sum()`
unfoldable pub sum_values : Tally → ℕ
sum_values [] = 0
sum_values ((k, n) ∷ tally) = n + sum_values tally

abbrev pub findings : Report → ℕ
findings r = sum_values r.detectors

-- One character, escaped.
abbrev pub escaped : ℕ → Bytes
escaped c =
    if c == b'&'
    then codes "&amp;"
    else if c == b'<'
    then codes "&lt;"
    else if c == b'>'
    then codes "&gt;"
    else if c == b'"'
    then codes "&quot;"
    else if c == 39
    then codes "&#39;"
    else c ∷ []

unfoldable pub esc : Bytes → Bytes
esc [] = []
esc (c ∷ s) = escaped c ++ esc s
