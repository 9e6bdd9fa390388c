-- ===== src/Local/Tests.antt =====
-- Concrete runs of the local store.
use noknowledge.Base.{ℕ, ◌≤◌, String, ◌≡◌, List, [], ◌∷◌}
use noknowledge.Wire.Pool.{cursor}
use noknowledge.Local.Schema.{empty_store}
use noknowledge.Local.Cache.{
  put_local_blob, local_blob_bytes, local_blob_cap_bytes, put_local_blob-within,
}
use noknowledge.Local.Cursors.{get_cursors, set_cursors, highest, get_cursors-set_cursors}

abbrev calls : List (String × String × String × ℕ)
calls = ("i", "m", "a", 4) ∷ ("i", "m", "b", 9) ∷ ("i", "m", "a", 2) ∷ []

get_cursors-set_cursors_example :
    cursor (get_cursors "i" "m" (set_cursors calls empty_store)) "a"
    ≡ highest "i" "m" "a" calls (cursor (get_cursors "i" "m" empty_store) "a")
get_cursors-set_cursors_example = get_cursors-set_cursors "i" "m" "a" calls empty_store

put_local_blob-within_example :
    local_blob_bytes (put_local_blob 5 "chunk" (1 ∷ 2 ∷ []) empty_store) ≤ local_blob_cap_bytes
put_local_blob-within_example = put_local_blob-within 5 "chunk" (1 ∷ 2 ∷ []) empty_store
