-- ===== src/Examples/Uploads.antt =====
-- Uploads of one chunk, to a file and to a path outside of the data directory.
use oikos.Common.{ℕ, true, ◌≡◌, refl, [], ◌∷◌}
use oikos.Common.Exec.{err, ◌>>=◌}
use oikos.Common.Int.{pos}
use oikos.Common.Paths.{is_abs, lineage_from, same_path, join, clean, clean_onto, backwards}
use oikos.Common.Tree.{mkdir_all, system_call, make_all, node_at}
use oikos.Filesystem.{
  data_root, all_id_chars, path_outside_root, prepare, check_context, ensure_root, server_root,
  resolve_path,
}
use oikos.Api.Filesystem.{UploadChunk, chunk, Service, upload}
use oikos.Api.Filesystem.Uploads.{sent, Accepts, upload-Accepts}
use oikos.Api.Filesystem.Answered.{is_ok, upload-answered}
use oikos.Store.Servers.{is_some}
use oikos.Examples.Files.{root, tree}

abbrev service : Service ℕ
service = record {
  root = root;
  max_upload = pos 100;
  blank = 0;
  temporary = ".upload-1";
  size = λ content. 7;
  pieces = λ content. (content, []);
  concat = λ parts. 1;
}

abbrev whole : UploadChunk ℕ
whole = record { server_id = "a"; path = "x"; content = 3; last = true }

upload-Accepts_example :
    Accepts service (sent service (chunk whole ∷ [])) (upload service (chunk whole ∷ []) tree).0
upload-Accepts_example = upload-Accepts service (chunk whole ∷ []) tree

abbrev outward : UploadChunk ℕ
outward = record { server_id = "a"; path = "/key"; content = 3; last = true }

outward_refused : (prepare ℕ 0 ".upload-1" root "a" "/key" tree).0 ≡ err path_outside_root
unfolding prepare check_context ensure_root server_root all_id_chars resolve_path data_root ◌>>=◌
    system_call mkdir_all make_all lineage_from node_at same_path join clean clean_onto backwards
    is_abs
outward_refused = refl

outward_calm : (prepare ℕ 0 ".upload-1" root "a" "/key" tree).1.faults ≡ []
unfolding prepare check_context ensure_root server_root all_id_chars resolve_path data_root ◌>>=◌
    system_call mkdir_all make_all lineage_from node_at same_path join clean clean_onto backwards
    is_abs
outward_calm = refl

-- Nothing fails, and the path is refused.
upload-answered_example :
    is_some (upload service (chunk outward ∷ []) tree).0
    ≡ is_ok (prepare ℕ 0 ".upload-1" root "a" "/key" tree).0
upload-answered_example = upload-answered service outward [] tree refl refl outward_calm
