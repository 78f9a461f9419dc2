-- ===== src/Pack/Files.antt =====
-- `dedupe_pack_files` of crates/ubiquisync-core/src/pack/filename.rs. The map from references to files
-- is the list of its files, each with the reference of the file as its key; its order is not used.
pub mod Latest
use ubiquisync.Prelude.{ℕ, ◌≡◌, ◌≤◌, refl, ◌⊎◌, inl, inr, List, [], ◌∷◌, All, arith, ltb, ◌==◌}
use ubiquisync.Prelude.{Bool, true, false, ◌&&◌, Bool-cases, if◌then◌else◌}
use ubiquisync.Pack.{PackFileId, get_ref}

-- `==` on `PackRef`, of two files.
unfoldable pub same_ref : PackFileId → PackFileId → Bool
unfolding get_ref
same_ref f g = (get_ref f).id == (get_ref g).id && (get_ref f).end_seq == (get_ref g).end_seq

-- One round of the loop: the entry of the file's reference is updated or made.
unfoldable pub insert_file : PackFileId → List PackFileId → List PackFileId
insert_file f [] = f ∷ []
insert_file f (e ∷ es) =
    let rest = insert_file f es in
    if same_ref f e then (if ltb e.generation f.generation then f ∷ es else e ∷ es) else e ∷ rest

unfoldable pub insert_files : List PackFileId → List PackFileId → List PackFileId
unfolding insert_file
insert_files [] files_by_ref = files_by_ref
insert_files (f ∷ files) files_by_ref = insert_files files (insert_file f files_by_ref)

unfoldable pub dedupe_pack_files : List PackFileId → List PackFileId
unfolding insert_files
dedupe_pack_files files = insert_files files []
