-- ===== src/Tests/Overlap.antt =====
-- The theorems on overlapping requests, at the files of two tokens.
use fcopy.Base.{◌≡◌, refl, codes, [], ◌∷◌, All, none, some, arith}
use fcopy.Server.FileManager.{FileInfo, find}
use fcopy.Server.Overlap.{done, set_table, opens, cuts, enters, gets, writes, Requests, Reach}
use fcopy.Server.Overlap.Held.{IsOwned}
use fcopy.Server.Overlap.Owners.{Reach-IsOwned}
use fcopy.Server.Overlap.Stray.{stray_write}
use fcopy.Server.Overlap.Aims.{Careful, begin, asks_create, asks_send, moves}
use fcopy.Server.Overlap.Waiting.{Careful-writes}

stray_write_example :
    (s : Requests) × Reach s × (s.shared.writes ≡ (codes "a", some (codes "b")) ∷ [])
stray_write_example = stray_write (codes "a") (codes "b")

abbrev strayed : Requests
strayed = (stray_write (codes "a") (codes "b")).0

strayed-Reach : Reach strayed
strayed-Reach = (stray_write (codes "a") (codes "b")).1

Reach-IsOwned_example : IsOwned strayed.shared strayed.jobs
Reach-IsOwned_example = Reach-IsOwned strayed-Reach

abbrev info : FileInfo
info = record {
  fd = 3;
  chunk_size = none;
  total_size = 0;
  file_name = [];
  file_path = [];
  file_token = codes "a";
  targets = [];
}

-- A file that is created, and a write to it.
abbrev written : Requests
written = record {
  shared = record {
    fmap = (codes "a", info) ∷ [];
    table = set_table (λ g. none) 3 (some (codes "a"));
    writes = (codes "a", some (codes "a")) ∷ [];
  };
  jobs = done ∷ done ∷ [];
}

written-Careful : Careful written
unfolding find
written-Careful =
    moves [] (done ∷ [])
      (moves [] (done ∷ [])
        (asks_send (codes "a") (
          moves [] []
            (moves [] []
              (moves [] [] (asks_create (codes "a") begin) (opens 3 (omega arith) refl) tt)
              (cuts info refl) tt)
            (enters refl) tt))
        (gets info refl) tt)
      writes tt

Careful-writes_example : All (λ w. w.1 ≡ some w.0) written.shared.writes
Careful-writes_example = Careful-writes written-Careful
