-- ===== src/Server/Overlap/Stray.antt =====
-- A write that misses its file in src/server/service.cpp.
use fcopy.Base.{◌≡◌, refl, Bytes, bytes_eq_refl, [], ◌∷◌, none, some, arith}
use fcopy.Server.FileManager.{FileInfo, find}
use fcopy.Server.Overlap.{
  done, set_table, opens, cuts, enters, finds, closes, gets, writes, Requests, creates, ends, sends,
  works, Reach, start, later,
}

abbrev file_of : Bytes → FileInfo
file_of t = record {
  fd = 3;
  chunk_size = none;
  total_size = 0;
  file_name = [];
  file_path = [];
  file_token = t;
  targets = [];
}

find-first : (t : Bytes) (info : FileInfo) → find t ((t, info) ∷ []) ≡ some info
unfolding find
find-first t info = rw (bytes_eq_refl t) refl

-- The file of t is entered, and no request is under way.
entered :
    (t : Bytes)
    → Reach (record {
      shared = record {
        fmap = (t, file_of t) ∷ [];
        table = set_table (λ g. none) 3 (some t);
        writes = [];
      };
      jobs = done ∷ [];
    })
unfolding find
entered t =
    later
      (later (later (later start (creates t)) (works [] [] (opens 3 (omega arith) refl)))
        (works [] [] (cuts (file_of t) refl)))
      (works [] [] (enters refl))

-- For any two tokens, overlapping requests from an empty server can lead to a write for the first
-- that reaches the file of the second, and to no other write.
pub stray_write : (t u : Bytes) → (s : Requests) × Reach s × (s.shared.writes ≡ (t, some u) ∷ [])
stray_write t u =
    let r = entered t in
    let sent =
      later (later r (sends t))
        (works [] (done ∷ []) (gets (file_of t) (find-first t (file_of t)))) in
    let found =
      later (later sent (ends t)) (works [] _ (finds (file_of t) (find-first t (file_of t)))) in
    let closed = later found (works [] _ closes) in
    let opened = later (later closed (creates u)) (works [] _ (opens 3 (omega arith) refl)) in
    (_, later opened (works (_ ∷ _ ∷ []) _ writes), refl)
