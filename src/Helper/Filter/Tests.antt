-- ===== src/Helper/Filter/Tests.antt =====
-- Records and filters to run the theorems on.
use honeypots.Prelude.{◌≡◌, ◌≢◌, refl, true, none, some, [], ◌∷◌, arith}
use honeypots.Python.Bytes.{Text, codes, bytes_eq}
use honeypots.Python.Value.{Value, Fields, dict, fields, word, text, get}
use honeypots.Python.Json.Printable.{IsPrintable}
use honeypots.Helper.Filter.{
  Filters, Record, Texts, terminal, member, filtered, passes, serialize_message, parse_record,
}
use honeypots.Helper.Filter.Removed.{serialize_message_removed}
use honeypots.Helper.Filter.Line.{parse_record_line}

abbrev no_texts : Texts
no_texts = record { repr = λ n. []; float_text = λ n. []; bytes_repr = λ b. []; exn_repr = λ e. [] }

abbrev now : Text
now = codes "2024-01-01"

abbrev sample_filter : Filters
sample_filter = record {
  options = codes "remove_errors" ∷ codes "remove_word_server" ∷ [];
  change = (codes "src_ip", codes "ip") ∷ [];
  remove = codes "password" ∷ [];
  contains = some (codes "ip" ∷ []);
}

abbrev login : Fields
login = fields (word "server" "ssh_server" ∷ word "src_ip" "10.0.0.1" ∷ word "password" "a\nb" ∷ [])

abbrev login_record : Record
login_record = record { name = codes "log"; msg = dict login }

abbrev kept : Value
kept = dict (fields (word "server" "ssh" ∷ word "ip" "10.0.0.1" ∷ []))

login_passes : filtered (some sample_filter) (dict login) ≡ (kept, passes)
unfolding filtered
login_passes = refl

not_timestamp : codes "password" ≢ codes "timestamp"
not_timestamp h = ground (arith, h)

serialize_message_removed_example :
    (out : Fields) × ((serialize_message no_texts now (some sample_filter) login_record).1
      ≡ some (dict out))
    × (get out (codes "password") ≡ none)
serialize_message_removed_example =
    serialize_message_removed no_texts now sample_filter login_record login kept (codes "password")
      refl login_passes (unfold member bytes_eq in refl) not_timestamp

abbrev failure : Fields
failure = fields (word "error" "boom" ∷ [])

abbrev failure_record : Record
failure_record = record { name = codes "log"; msg = dict failure }

abbrev line_text : Text
line_text =
    codes
      "{\"password\": \"a\\nb\", \"server\": \"ssh_server\", \"src_ip\": \"10.0.0.1\", \"timestamp\": \"2024-01-01\"}"

abbrev written_record : Record
written_record = record { name = codes "log"; msg = text line_text }

login_line : parse_record no_texts now none terminal login_record ≡ (written_record, true)
unfolding parse_record
login_line = refl

parse_record_line_example : (line : Text) × (text line_text ≡ text line) × IsPrintable line
parse_record_line_example =
    parse_record_line no_texts now none login_record written_record (λ n. tt) login_line
