-- ===== src/Examples/Log.antt =====
-- One plaintext and one opaque log entry.
use ubiquisync.Prelude.{◌^◌, ◌≡◌, arith, [], ◌∷◌, ◌++◌, Bytes, ok}
use ubiquisync.Hlc.{Timestamp}
use ubiquisync.Log.Entry.{LogEntry, EntryBody, encode_entry, decode_entry, plaintext_timestamp}
use ubiquisync.Log.Entry.RoundTrip.{plaintext_laws, decode_entry-encode_entry}

abbrev entry : LogEntry Timestamp
entry = LogEntry.indexed_entry (
    EntryBody.op (record {
      timestamp = record { value = 2 ^ 62 };
      server_attested_user_id = 1 ∷ 2 ∷ [];
      op = 9 ∷ [];
    }))

decode_entry-encode_entry_example :
    (bs : Bytes) × (encode_entry entry (8 ∷ []) ≡ ok (8 ∷ [] ++ bs))
    × (decode_entry (bs ++ (4 ∷ [])) ≡ ok (entry, 4 ∷ []))
decode_entry-encode_entry_example =
    decode_entry-encode_entry plaintext_laws entry (8 ∷ []) (4 ∷ []) (omega arith)
