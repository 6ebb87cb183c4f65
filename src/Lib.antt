-- ===== src/Lib.antt =====
-- The inspection path of Sentin-NPU, the gateway that stands between a client and a language model
-- and looks for personal data in what is sent.
--
-- The program. A request's body is parsed; an adapter says where its texts and its attachments are
-- (gateway/crates/sentin-proxy/src/adapters.rs). Each text is scanned by the deterministic layer
-- (gateway/crates/sentin-detect/src/deterministic.rs, on the check digits of checksums.rs beside
-- it) and, when configured, by a model that names entities. Each finding's decision is the mode
-- that the configuration gives its kind (gateway/crates/sentin-proxy/src/config.rs), clamped by the
-- finding's layer and evidence (gateway/crates/sentin-core/src/lib.rs). The pipeline
-- (gateway/crates/sentin-proxy/src/inspect.rs) collects the findings, takes the strongest decision
-- for the request, and rewrites the texts of a masked one.
--
-- The files.
--   Core and its children: the types of sentin-core, one file each (Decision, Layer, Validation,
--     DataKind, Finding, Device), the laws of clamping (Ceiling), and where `Device::parse_name`
--     returns (Naming).
--   Trim: `str::trim` of Unicode white space, where the program calls it.
--   Checksums: checksums.rs, function for function; Bounds, Substitution and Iban hold its theorems.
--   TestData: testdata.rs, the generators of valid identifiers; RoundTrip and Pesel run them against
--     Checksums.
--   Scan: deterministic.rs, one child for each scanner (Digits is `collect_digits`, Numeric
--     `scan_numeric` with phones and cards, Vat, Email, Iban, and Detect the main loop); Laws and its
--     children prove what a finding rests on.
--   Config: config.rs, `mode_for` and `provider_for`; Keys holds its theorems.
--   Json: an interface for `serde_json::Value`, which is another package's, with the laws that are
--     relied on; Tree is an instance of it for the examples.
--   Adapters: adapters.rs, over that interface; Readable holds its theorem.
--   Mask: `mask_spans` of inspect.rs; Reference and Overlap hold its theorems.
--   Inspect: `inspect_request`; Types has its records, Pipeline the loops as functions on the local
--     variables they change, Consistent what holds between two rounds, Strongest and Laws the rest, and
--     Total when no panic ends it.
--   Audit: gateway/crates/sentin-audit/src/lib.rs (Event, and Digest with SHA-256) and cef.rs beside
--     it (Cef); Reading and Line say what a reader of a rendered event gets, Padding and Shape what a
--     digest is.
--   Record: gateway/crates/sentin-proxy/src/audit_sink.rs. `record_request` is on the records of Inspect
--     and Audit, with its theorems in Laws; Clock is the time stamp, with its theorem in Calendar, and
--     Lifecycle has the events that no request causes.
--   Stream: the sliding window of gateway/crates/sentin-proxy/src/stream.rs; Laws holds its theorems.
--   Ner: `decode` of gateway/crates/sentin-detect/src/ner.rs; Complete follows its first loop, and Laws
--     holds its theorem.
--   Device: which device runs the model. Select is select.rs of gateway/crates/sentin-detect/src, Resolve
--     the names in ov.rs beside it; Order, Best and Present hold the theorems.
--   Editor: gateway/crates/sentin-ui/src/policy.rs. Lines reads and rewrites one line, File finds it,
--     Operations are the edits; Laws and OneLine hold the theorems. The YAML parser is a parameter.
--   Report: gateway/crates/sentin-ui/src/report.rs, what it counts and how it escapes; Laws holds its
--     theorems.
--   Extract: gateway/crates/sentin-extract/src. Document is lib.rs, Office is ooxml.rs and pdf.rs; Utf8
--     stands for the decoding of Rust's standard library, with its lemmas in Sync; Runs, Laws and Budget
--     hold the theorems. Its `extractor` is an
--     instance of what the pipeline takes.
--   Gateway: gateway/crates/sentin-proxy/src/lib.rs. Handler is `proxy` and `relay`, from the routing of a
--     request to the reply; Headers and Names what they call; Policy says what the handler promises
--     without its steps, Laws that it keeps it, and Total when no panic ends it.
--   Prelude: lists over the native numbers, Boolean tests and ASCII, shared by all.
--   Tests: runs on concrete inputs, and an input for each theorem that has conditions.
--
-- Correspondence. A text is the list of its UTF-8 bytes, an index a natural number. A `while` loop
-- is a recursion on fuel, and each is given the length of the text or one more, which the loops of
-- the scanners cannot use up since every round moves the index; for the main loop this is a theorem.
-- Numbers of `u32` are natural numbers; the sums of check digits are far from its bound. An early
-- return is a test or a function by clauses on an Option. `HashMap` is a list of entries. A panic is the value
-- `panics`: of a slice (`parse_name`, and the records that call it), of a replacement outside the text
-- or off its characters (`mask_spans`, and `inspect_request`, where layer 2 reports such spans), of
-- either in the handler, and of an index or a debug assertion in `decode` of the entity model, which
-- is modelled with its assertions on. Elsewhere indices are in range by the guards.
-- The confidence of a finding counts hundredths. The answer of the entity model and what is
-- made of an attachment are parameters of `inspect_request`. Base64, zip, XML, PDF, YAML, JSON and HTTP
-- are other packages' and parameters too. Measured times are natural numbers in any unit, and the
-- wrap-around of SHA-256 is written out.
--
-- Not modelled: the model run and its measuring, HTTP and the parsing of JSON, the sinks of the audit
-- records, the window of the user interface, and the tools around the program.
-- These are input and output, other packages' code, or not yet treated.
mod Prelude
pub mod Core
pub mod Checksums
pub mod TestData
pub mod Scan
pub mod Config
pub mod Mask
pub mod Json
pub mod Adapters
pub mod Audit
pub mod Inspect
pub mod Record
pub mod Stream
pub mod Gateway
pub mod Ner
pub mod Extract
pub mod Device
pub mod Editor
pub mod Report
mod Tests
pub mod Trim
