-- ===== src/Runtime/Artifacts/Generate.antt =====
-- ml/runtime/generate_artifact_checksums.py. The artifacts that glob finds are a list, sorted.
use smart_ids.Base.{string_eq, ◌==◌, ℕ, Option, none, some, List, [], ◌∷◌, String, if◌then◌else◌}
use smart_ids.Text.{concat}
use smart_ids.Runtime.Artifacts.{
  Contents, absent, unreadable, bytes, checksum_path, compute_sha256, Libraries,
}

abbrev pub write : (String → Contents) → String → List ℕ → String → Contents
write files target content path = if path == target then bytes content else files path

-- `updated.append`, of what comes before the others.
abbrev pub add_done : String → Option (List String) → Option (List String)
add_done path none = none
add_done path (some done) = some (path ∷ done)

module _ {S M E : Type 0} (l : Libraries S M E) where
  -- The loop of `generate_checksums` over the sorted artifacts: the files, and the paths that were
  -- done, unless a file cannot be read, which raises.
  unfoldable pub generate_checksums :
      (String → Contents) → List String → (String → Contents) × Option (List String)
  unfolding compute_sha256
  generate_checksums files [] = (files, some [])
  generate_checksums files (path ∷ paths) = elim (files path) [
    | absent ↦ generate_checksums files paths
    | unreadable ↦ (files, none)
    | bytes content ↦
        let (written, updated) =
          generate_checksums
            (write files (checksum_path path)
              (l.encode (concat (compute_sha256 l.sha256 content) "\n")))
            paths in
        (written, add_done path updated)
  ]
