-- ===== src/Log/Segment/RoundTrip.antt =====
-- The entries of a segment, and a whole opaque segment, are read back as they were written.
use ubiquisync.Prelude.{
  ℕ, zero, suc, ◌≤◌, ◌≡◌, refl, ap, ◌∙◌, List, [], ◌∷◌, ◌++◌, map, append_assoc, append-nil, length,
  length-append, Bytes, All, arith,
}
use ubiquisync.Prelude.{ok, Option}
use ubiquisync.Codec.Containers.{OnSome, each_bytes}
use ubiquisync.Crypto.{Signature, CipherInfo}
use ubiquisync.Crypto.RoundTrip.{IsSignature, IsCipherInfo}
use ubiquisync.Log.Entry.{LogEntry, EntryBody, OpaqueLogEntry, opaque_timestamp}
use ubiquisync.Log.Entry.{decode_entry}
use ubiquisync.Log.Entry.RoundTrip.{TimestampLaws, opaque_laws, IsEntry, entry_bytes}
use ubiquisync.Log.Entry.RoundTrip.{encode_entry-bytes, decode_entry-bytes}
use ubiquisync.Log.Hash.{ChainHash}
use ubiquisync.Log.Segment.{decode_header, encode_entries}
use ubiquisync.Log.Segment.{entries_loop, yield_entry, decode_entries, collect_entries, init_opaque}
use ubiquisync.Log.Segment.{encode_segment_opaque}
use ubiquisync.Log.Segment.Header.{
  IsChainHash, IsHeader, header_bytes, encode_header-bytes, decode_header-bytes,
}

module _ {T : Type 0} (laws : TimestampLaws T) where
  abbrev pub entries_bytes : List (LogEntry T) → Bytes
  entries_bytes es = each_bytes (entry_bytes laws) es

  pub encode_entries-bytes :
      (es : List (LogEntry T)) (w : Bytes)
      → encode_entries ⦃repr = laws.repr⦄ es w ≡ ok (w ++ entries_bytes es)
  unfolding encode_entries
  encode_entries-bytes [] w = rw append-nil
  encode_entries-bytes (e ∷ es) w = rw (
    encode_entry-bytes laws e w,
    encode_entries-bytes es (w ++ entry_bytes laws e),
    append_assoc w (entry_bytes laws e) (entries_bytes es),
  )

  -- An entry starts with the byte of its type.
  entry_bytes-cons : (e : LogEntry T) → (b : ℕ) × (tail : Bytes) × (entry_bytes laws e ≡ b ∷ tail)
  unfolding entry_bytes
  entry_bytes-cons (LogEntry.indexed_entry (EntryBody.op e)) = (_, _, refl)
  entry_bytes-cons (LogEntry.indexed_entry (EntryBody.use_key ci)) = (_, _, refl)
  entry_bytes-cons (LogEntry.indexed_entry (EntryBody.expunged x)) = (_, _, refl)
  entry_bytes-cons (LogEntry.signature s) = (_, _, refl)

  length-entries_bytes : (es : List (LogEntry T)) → length es ≤ length (entries_bytes es)
  length-entries_bytes [] = omega arith
  length-entries_bytes (e ∷ es) =
      let (b, tail, cons) = entry_bytes-cons e in
      rw cons (omega (arith, length-entries_bytes es, length-append tail (entries_bytes es)))

  entries_loop-cons :
      (n b : ℕ) (tail rest : Bytes) (e : LogEntry T)
      → decode_entry ⦃repr = laws.repr⦄ (b ∷ tail) ≡ ok (e, rest)
      → entries_loop ⦃repr = laws.repr⦄ (suc n) (b ∷ tail)
        ≡ ok e ∷ entries_loop ⦃repr = laws.repr⦄ n rest
  unfolding entries_loop
  entries_loop-cons n b tail rest e h =
      ap (λ x. yield_entry ⦃repr = laws.repr⦄ x (entries_loop ⦃repr = laws.repr⦄ n)) h

  entries_loop-nil : (n : ℕ) → entries_loop ⦃repr = laws.repr⦄ n [] ≡ []
  unfolding entries_loop
  entries_loop-nil zero = refl
  entries_loop-nil (suc n) = refl

  entries_loop-bytes :
      (n : ℕ) (es : List (LogEntry T))
      → length es ≤ n
      → All (IsEntry laws) es
      → entries_loop ⦃repr = laws.repr⦄ n (entries_bytes es) ≡ map ok es
  entries_loop-bytes n [] h hs = entries_loop-nil n
  entries_loop-bytes zero (e ∷ es) h hs = absurd (omega arith)
  entries_loop-bytes (suc n) (e ∷ es) h (he, hes) =
      let (b, tail, cons) = entry_bytes-cons e in
      let read = decode_entry-bytes laws e (entries_bytes es) he in
      rw cons (
        entries_loop-cons n b (tail ++ entries_bytes es) (entries_bytes es) e (rw cons at read)
        ∙ ap (λ l. ok e ∷ l) (entries_loop-bytes n es (omega arith) hes))

  pub decode_entries-bytes :
      (es : List (LogEntry T))
      → All (IsEntry laws) es
      → decode_entries ⦃repr = laws.repr⦄ (entries_bytes es) ≡ map ok es
  unfolding decode_entries
  decode_entries-bytes es h =
      entries_loop-bytes (length (entries_bytes es)) es (length-entries_bytes es) h

  -- Encoding entries succeeds, and, where their arrays have their lengths, their slices fit the
  -- memory and their timestamps are in range, iterating over what was appended gives exactly these entries, in
  -- order and with no error.
  pub decode_entries-encode_entries :
      (es : List (LogEntry T)) (w : Bytes)
      → All (IsEntry laws) es
      → (bs : Bytes) × (encode_entries ⦃repr = laws.repr⦄ es w ≡ ok (w ++ bs))
        × (decode_entries ⦃repr = laws.repr⦄ bs ≡ map ok es)
  decode_entries-encode_entries es w h =
      (entries_bytes es, encode_entries-bytes es w, decode_entries-bytes es h)

collect_entries-ok : {T : Type 0} (es : List (LogEntry T)) → collect_entries (map ok es) ≡ ok es
unfolding collect_entries
collect_entries-ok [] = refl
collect_entries-ok (e ∷ es) = rw (collect_entries-ok es)

pub init_opaque-IsHeader :
    {T : Type 0} (s : Signature) (c : ChainHash) (cipher : Option CipherInfo)
    (es : List (LogEntry T))
    → IsSignature s
    → IsChainHash c
    → OnSome IsCipherInfo cipher
    → IsHeader (init_opaque s c cipher es)
unfolding init_opaque
init_opaque-IsHeader s c cipher [] hs hc ho = (hs, hc, ho, tt)
init_opaque-IsHeader s c cipher (LogEntry.indexed_entry (EntryBody.op e) ∷ es) hs hc ho =
    (hs, hc, ho, tt)
init_opaque-IsHeader s c cipher (LogEntry.indexed_entry (EntryBody.use_key ci) ∷ es) hs hc ho =
    (hs, hc, tt, tt)
init_opaque-IsHeader s c cipher (LogEntry.indexed_entry (EntryBody.expunged x) ∷ es) hs hc ho =
    (hs, hc, ho, tt)
init_opaque-IsHeader s c cipher (LogEntry.signature x ∷ es) hs hc ho = (hs, hc, ho, tt)

-- An opaque segment, of values whose arrays have their lengths and whose numbers and slices fit 64
-- bits, is encoded, and reading it gives its header, which names the cipher at the start
-- unless the first entry sets one, and then exactly its entries.
pub encode_segment_opaque_lem :
    (s : Signature) (c : ChainHash) (cipher : Option CipherInfo) (es : List OpaqueLogEntry)
    → IsSignature s
    → IsChainHash c
    → OnSome IsCipherInfo cipher
    → All (IsEntry opaque_laws) es
    → (bs : Bytes) × (rest : Bytes) × (encode_segment_opaque s c cipher es ≡ ok bs)
      × (decode_header bs ≡ ok (init_opaque s c cipher es, rest))
      × (collect_entries (decode_entries ⦃repr = opaque_timestamp⦄ rest) ≡ ok es)
unfolding encode_segment_opaque
encode_segment_opaque_lem s c cipher es hs hc ho he =
    let header = init_opaque s c cipher es in
    let good = init_opaque-IsHeader s c cipher es hs hc ho in
    let rest = entries_bytes opaque_laws es in
    (
      header_bytes header ++ rest,
      rest,
      rw (
        encode_header-bytes header [] good,
        encode_entries-bytes opaque_laws es (header_bytes header),
      ),
      decode_header-bytes header rest good,
      rw (decode_entries-bytes opaque_laws es he) (collect_entries-ok es),
    )
