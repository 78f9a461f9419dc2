-- ===== src/Pack/Store.antt =====
-- crates/ubiquisync-core/src/pack/store.rs and `FileRemote` of remote.rs: packs as two files in the
-- remote storage, the body and the header. A call of the remote takes its state and returns it;
-- `get` is what the remote holds. The hexadecimal text of a peer id is made by a library.
pub mod Complete
pub mod Listing
pub mod Written
use ubiquisync.Prelude.{ℕ, ◌≡◌, ◌≢◌, List, [], ◌∷◌, ◌++◌, Bytes, same_bytes, not, ◌==◌}
use ubiquisync.Prelude.{if◌then◌else◌, Bool, true, false, Result, ok, err, ◌>>=◌, map_err}
use ubiquisync.Prelude.{Option, none, some}
use ubiquisync.Codec.Writer.{WriteError}
use ubiquisync.Pack.{PackFileId, SignedPackHeader, PackHeaderDecodeError, encode_signed}
use ubiquisync.Pack.{decode_signed}
use ubiquisync.Pack.Sign.{PackFileDescriptor}
use ubiquisync.Pack.Names.{Topic, ParseFileNameError, sub_topic, dir, display, from_str}

pub data FileRemoteError : Type 0 where
  fatal other : FileRemoteError

pub data FileType : Type 0 where
  file directory : FileType

pub record DirEntry : Type 0 where
  pub file_name : Bytes
  pub file_type : FileType

-- The trait `FileRemote`, over the states `S` of a remote: a call that succeeds does what it says to
-- its path and nothing to another, a call that fails changes nothing.
pub record FileRemote (S : Type 0) : Type 0 where
  pub get : S → Bytes → Option Bytes
  pub list : S → Bytes → Result FileRemoteError (List DirEntry)
  pub read : S → Bytes → Result FileRemoteError (Option Bytes)
  pub write : S → Bytes → Bytes → Result FileRemoteError (Unit {0}) × S
  pub delete : S → Bytes → Result FileRemoteError (Unit {0}) × S
  pub read_get : (s : S) (p : Bytes) (o : Option Bytes) → read s p ≡ ok o → get s p ≡ o
  pub write_same :
      (s : S) (p data' : Bytes)
      → (write s p data').0 ≡ ok tt
      → get (write s p data').1 p ≡ some data'
  pub write_other : (s : S) (p data' q : Bytes) → q ≢ p → get (write s p data').1 q ≡ get s q
  pub write_failed :
      (s : S) (p data' q : Bytes) (e : FileRemoteError)
      → (write s p data').0 ≡ err e
      → get (write s p data').1 q ≡ get s q
  pub delete_same : (s : S) (p : Bytes) → (delete s p).0 ≡ ok tt → get (delete s p).1 p ≡ none
  pub delete_other : (s : S) (p q : Bytes) → q ≢ p → get (delete s p).1 q ≡ get s q
  pub delete_failed :
      (s : S) (p q : Bytes) (e : FileRemoteError)
      → (delete s p).0 ≡ err e
      → get (delete s p).1 q ≡ get s q

pub data PackStoreError : Type 0 where
  remote : FileRemoteError → PackStoreError
  decode : PackHeaderDecodeError → PackStoreError
  write : WriteError → PackStoreError
  invalid_author : PackStoreError

-- `PackData` of pack/builder.rs.
pub record PackData : Type 0 where
  pub descriptor : PackFileDescriptor
  pub header : SignedPackHeader
  pub body : Bytes

-- `.uqp.meta` and `.uqp`.
abbrev pub header_ext : Bytes
header_ext = 46 ∷ 117 ∷ 113 ∷ 112 ∷ 46 ∷ 109 ∷ 101 ∷ 116 ∷ 97 ∷ []

abbrev pub body_ext : Bytes
body_ext = 46 ∷ 117 ∷ 113 ∷ 112 ∷ []

-- `peers`.
abbrev pub peers_dir : Bytes
peers_dir = 112 ∷ 101 ∷ 101 ∷ 114 ∷ 115 ∷ []

-- `str::strip_prefix` and `str::strip_suffix`.
abbrev pub strip_prefix : Bytes → Bytes → Option Bytes
strip_prefix [] s = some s
strip_prefix (c ∷ p) [] = none
strip_prefix (c ∷ p) (d ∷ s) = if c == d then strip_prefix p s else none

abbrev pub strip_suffix : Bytes → Bytes → Option Bytes
strip_suffix suffix [] = if same_bytes suffix [] then some [] else none
strip_suffix suffix (c ∷ s) =
    let rest = strip_suffix suffix s in
    if same_bytes suffix (c ∷ s)
    then some []
    else elim rest [ none ↦ none | some front ↦ some (c ∷ front) ]

abbrev pub keep : {B : Type 0} → Option B → List B → List B
keep none ys = ys
keep (some y) ys = y ∷ ys

abbrev pub filter_map : {A B : Type 0} → (A → Option B) → List A → List B
filter_map f [] = []
filter_map f (x ∷ xs) = keep (f x) (filter_map f xs)

abbrev pub to_option : {E A : Type 0} → Result E A → Option A
to_option (err e) = none
to_option (ok a) = some a

-- `Option::and_then`.
abbrev pub bind : {A B : Type 0} → Option A → (A → Option B) → Option B
bind none f = none
bind (some a) f = f a

-- The filter by the type of an entry, and what is made of its name.
abbrev pub if_file : {B : Type 0} → FileType → Option B → Option B
if_file FileType.file o = o
if_file FileType.directory o = none

abbrev pub if_directory : {B : Type 0} → FileType → Option B → Option B
if_directory FileType.file o = none
if_directory FileType.directory o = o

abbrev pub of_file : {B : Type 0} → (Bytes → Option B) → DirEntry → Option B
of_file f e = if_file e.file_type (f e.file_name)

abbrev pub of_directory : {B : Type 0} → (Bytes → Option B) → DirEntry → Option B
of_directory f e = if_directory e.file_type (f e.file_name)

-- What `list_packs` makes of a file name, and `list_sub_topics` of the name of a directory.
unfoldable pub pack_of_name : Bytes → Option PackFileId
pack_of_name name = bind (strip_suffix header_ext name) (λ s. to_option (from_str s))

unfoldable pub topic_of_name : Topic → Bytes → Option Topic
topic_of_name topic name = bind (strip_prefix (95 ∷ []) name) (λ n. to_option (sub_topic topic n))

-- What `read_header` makes of the file.
unfoldable pub decode_found : Option Bytes → Result PackStoreError (Option SignedPackHeader)
decode_found none = ok none
decode_found (some buf) = do h ← map_err PackStoreError.decode (decode_signed buf); ok (some h)

-- `hex_encode` is the printing of a peer id by the library for hexadecimal text, `parse_peer` its
-- parsing.
module _ {S : Type 0} (r : FileRemote S) (hex_encode : Bytes → Bytes) where
  unfoldable pub peer_dir : Topic → Bytes → Bytes
  peer_dir topic peer = dir topic ++ (47 ∷ hex_encode peer)

  -- The name of the files of a pack, without their extension.
  unfoldable pub stem : PackFileDescriptor → Bytes
  unfolding peer_dir
  stem d = peer_dir d.topic d.peer_id ++ (47 ∷ display d.id)

  abbrev pub file_name : PackFileDescriptor → Bytes → Bytes
  file_name d ext = stem d ++ ext

  abbrev pub header_path : PackFileDescriptor → Bytes
  header_path d = file_name d header_ext

  abbrev pub body_path : PackFileDescriptor → Bytes
  body_path d = file_name d body_ext

  unfoldable pub list_peer_inits : (Bytes → Option Bytes) → S → Result PackStoreError (List Bytes)
  list_peer_inits parse_peer s = do
    es ← map_err PackStoreError.remote (r.list s peers_dir)
    ok (filter_map (of_file parse_peer) es)

  unfoldable pub list_sub_topics : S → Topic → Result PackStoreError (List Topic)
  unfolding topic_of_name
  list_sub_topics s topic = do
    let parent : Bytes = elim topic [ [] ↦ [] | part ∷ parts ↦ dir (part ∷ parts) ]
    es ← map_err PackStoreError.remote (r.list s parent)
    ok (filter_map (of_directory (topic_of_name topic)) es)

  unfoldable pub list_topic_peers :
      (Bytes → Option Bytes) → S → Topic → Result PackStoreError (List Bytes)
  list_topic_peers parse_peer s topic = do
    es ← map_err PackStoreError.remote (r.list s (dir topic))
    ok (filter_map (of_directory parse_peer) es)

  unfoldable pub list_packs : S → Topic → Bytes → Result PackStoreError (List PackFileId)
  unfolding pack_of_name
  list_packs s topic peer = do
    es ← map_err PackStoreError.remote (r.list s (peer_dir topic peer))
    ok (filter_map (of_file pack_of_name) es)

  unfoldable pub read_header :
      S → PackFileDescriptor → Result PackStoreError (Option SignedPackHeader)
  unfolding decode_found
  read_header s d = do
    found ← map_err PackStoreError.remote (r.read s (header_path d))
    decode_found found

  unfoldable pub read_body : S → PackFileDescriptor → Result PackStoreError (Option Bytes)
  read_body s d = map_err PackStoreError.remote (r.read s (body_path d))

  -- The second of two calls is made only if the first succeeds.
  abbrev pub and_then :
      Result FileRemoteError (Unit {0}) × S
      → (S → Result FileRemoteError (Unit {0}) × S)
      → Result PackStoreError (Unit {0}) × S
  and_then (err e, s) next = (err (PackStoreError.remote e), s)
  and_then (ok u, s) next = (map_err PackStoreError.remote (next s).0, (next s).1)

  -- The writes of `write_pack`: the body, then the header.
  unfoldable pub write_files :
      PackFileDescriptor → Bytes → Bytes → S → Result PackStoreError (Unit {0}) × S
  write_files d header body s =
      and_then (r.write s (body_path d) body) (λ s'. r.write s' (header_path d) header)

  unfoldable pub write_pack : Bytes → PackData → S → Result PackStoreError (Unit {0}) × S
  unfolding write_files
  write_pack self_id pack s =
      if not (same_bytes pack.descriptor.peer_id self_id)
      then (err PackStoreError.invalid_author, s)
      else elim (encode_signed pack.header []) [
        | err e ↦ (err (PackStoreError.write e), s)
        | ok header ↦ write_files pack.descriptor header pack.body s
      ]

  unfoldable pub delete_pack : PackFileDescriptor → S → Result PackStoreError (Unit {0}) × S
  delete_pack d s = and_then (r.delete s (header_path d)) (λ s'. r.delete s' (body_path d))
