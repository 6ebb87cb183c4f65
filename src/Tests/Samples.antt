-- ===== src/Tests/Samples.antt =====
-- One request and what it takes to inspect it: a message in the OpenAI dialect with a PESEL, a file
-- whose extracted text holds an email address, and a service that names a person in every text.
use sentin_npu.Config.{Config, default_listen, default_inference, default_inspect}
use sentin_npu.Core.DataKind.{person}
use sentin_npu.Core.Decision.{Decision, blocked, masked}
use sentin_npu.Core.Layer.{ner}
use sentin_npu.Core.Validation.{pattern_only}
use sentin_npu.Inspect.Types.{NerService, Extractor}
use sentin_npu.Json.Tree.{Tree, text, array, object, no_items, item, no_members, with_member}
use sentin_npu.Core.Device.{is_char_boundary}
use sentin_npu.Prelude.{if◌then◌else◌, leb, ◌&&◌, [], ◌∷◌, inr, length, Bytes, codes, false}

-- An extractor that takes every attachment for a plain text, and names it by its length.
abbrev pub plain : Extractor
plain = record {
  decode = λ s. inr s;
  sniff = λ s. codes "text";
  extract = λ s limit.
      inr (record { text = s; kind = codes "text"; input_bytes = length s; truncated = false });
  digest = λ s. s;
}

abbrev pub config_with : Decision → Config
config_with mode = record {
  listen = default_listen;
  providers = [];
  detectors =
      (codes "pesel", record { mode = mode })
      ∷ (codes "email", record { mode = masked })
      ∷ (codes "person", record { mode = blocked })
      ∷ [];
  inspect = default_inspect;
  inference = default_inference;
}

-- A service that finds a person in the first five bytes.
abbrev pub somebody : NerService
somebody p t = inr (
    record {
      span = record { start = 0; end = 5 };
      kind = person;
      confidence = 80;
      layer = ner;
      validation = pattern_only;
    }
    ∷ [])

-- The same, where the text has five bytes in front and a character ends with them.
abbrev pub somewhere : NerService
somewhere p s = if leb 5 (length s) && is_char_boundary s 5 then somebody p s else inr []

abbrev pub one : Bytes → Tree → Tree
one k v = object (with_member k v no_members)

-- {"messages": [{"content": [{"text": …}, {"file": {"file_data": …}}]}]}
abbrev pub body : Tree
body = one (codes "messages") (
    array (
      item
        (one (codes "content") (
          array (
            item (one (codes "text") (text (codes "Alice, PESEL 44051401359"))) (
              item (one (codes "file") (one (codes "file_data") (text (codes "to jan@ex.pl"))))
                no_items))))
        no_items))
