-- ===== src/Tests/Server.antt =====
-- The theorems on the server, at a system whose calls succeed: a file is created, gets a target,
-- receives data and is closed.
use fcopy.Base.{
  ◌⊎◌, ℕ, suc, ◌%◌, ◌≡◌, ◌≢◌, subst, ◌≤◌, ◌<◌, refl, List, [], ◌∷◌, ◌++◌, none, some, true, false,
  if◌then◌else◌, ltb, ◌==◌, arith, codes, length,
}
use fcopy.Base.Int.{ℤ, negsuc, pos, neg, to_int16}
use fcopy.Base.Errno.{enoent, eexist, err_no_file}
use fcopy.Wire.Messages.{ChainTarget, SendFileReq, CloseFileReq, create_req, close_req, send_resp}
use fcopy.Wire.Head.{get_error, new_message}
use fcopy.Wire.Stream.{Message, make}
use fcopy.Server.FileManager.{
  FileManager, System, Log, opened, truncated, closed, no_files, create_file, close_file,
  set_chain_targets, has_file, get_fd, get_full_path, get_token, create_fd, enter_file,
  create_directories, creates, chains, Operation, run, close_all, find, step,
}
use fcopy.Server.FileManager.Ownership.{
  OpensUnused, IsOwner, is_open, run-IsOwner, no_files-IsOwner, run-close_all,
}
use fcopy.Server.FileManager.Promises.{Files, Leads}
use fcopy.Server.FileManager.Refinement.{calls_of, run-refines}
use fcopy.Server.FileManager.Tokens.{Opens}
use fcopy.Server.FileManager.Again.{Receives, create_file-again}
use fcopy.Net.{answered}
use fcopy.Server.Service.{
  Environment, Params, make_write, write_file, chunk_base, handle_send_file, handle_close_file,
}
use fcopy.Server.Service.Padding.{WritesBlocks, write_file-Blocks}
use fcopy.Server.Service.Forwarding.{Errors, IsDone, handle_send_file-IsDone}
use fcopy.Server.Service.Closing.{handle_close_file-outcome}

-- A descriptor above all that were opened.
unfoldable pub next_fd : Log → ℕ
next_fd [] = 3
next_fd (opened path flag none ∷ l) = next_fd l
next_fd (opened path flag (some g) ∷ l) = let rest = next_fd l in if ltb g rest then rest else suc g
next_fd (truncated g len done ∷ l) = next_fd l
next_fd (closed g ∷ l) = next_fd l

above-next_fd : (fd : ℕ) (l : Log) → next_fd l ≤ fd → is_open fd l ≡ false
unfolding next_fd is_open
above-next_fd fd [] h = refl
above-next_fd fd (opened path flag none ∷ l) h = above-next_fd fd l h
above-next_fd fd (opened path flag (some g) ∷ l) h = ground (arith, above-next_fd fd l)
above-next_fd fd (truncated g len done ∷ l) h = above-next_fd fd l h
above-next_fd fd (closed g ∷ l) h = ground (arith, above-next_fd fd l h)

abbrev pub system : System
system = record {
  current_path = codes "/";
  join = λ a b. a ++ b;
  has_filename = λ p. true;
  remove_filename = λ p. [];
  hash_digits = λ p. p;
  exists = λ log p. (true, 0);
  make_directories = λ log p. 0;
  open_file = λ log p flag. some (next_fd log);
  truncate = λ log fd size. true;
  errno = λ log. 5;
}

system-OpensUnused : OpensUnused system
system-OpensUnused log path flag fd e =
    let same : next_fd log ≡ fd = cc in above-next_fd fd log (omega arith)

abbrev target : ChainTarget
target = record { host = codes "b"; port = 5200; file_token = codes "t" }

abbrev history : List Operation
history = creates (codes "f") 5 8192 true ∷ chains (codes "/f") (target ∷ []) ∷ []

-- The manager after `history`.
abbrev receiving : FileManager
receiving = run system no_files history

run-close_all_example :
    let m = run system no_files history in is_open 3 (close_all m.fmap m.log) ≡ false
run-close_all_example = run-close_all system history 3 system-OpensUnused (omega arith)

receiving-IsOwner : IsOwner receiving
receiving-IsOwner = run-IsOwner system system-OpensUnused no_files history no_files-IsOwner

first-Opens : Opens system no_files (get_full_path system (codes "f")) 8192 true 3
unfolding create_directories next_fd
first-Opens = record {
  positive = (omega arith, omega arith);
  pages = refl;
  directory = refl;
  opens = refl;
  cuts = refl;
}

first-absent : has_file no_files (get_token system (get_full_path system (codes "f"))) ≡ false
unfolding has_file find
first-absent = refl

-- The manager in which a file `f` is being received and has got a target.
abbrev linked : FileManager
linked =
    run system (create_file system no_files (codes "f") 5 8192 true).0
      (chains (codes "/f") (target ∷ []) ∷ [])

again-Opens : Opens system linked (get_full_path system (codes "f")) 16384 true 4
unfolding create_directories next_fd run step create_file create_fd enter_file get_full_path
    get_token set_chain_targets
again-Opens = record {
  positive = (omega arith, omega arith);
  pages = refl;
  directory = refl;
  opens = refl;
  cuts = refl;
}

create_file-again_example :
    let (m', result, answer) = create_file system linked (codes "f") 7 16384 true in
    (result ≡ neg eexist)
    × (m'.fmap ≡ linked.fmap)
    × Receives
        (get_token system (get_full_path system (codes "f")))
        3
        (get_full_path system (codes "f"))
        m'
    × (m'.log
        ≡ closed 4
          ∷ truncated 4 0 true
          ∷ opened (get_full_path system (codes "f")) true (some 4)
          ∷ linked.log)
create_file-again_example =
    create_file-again system no_files (codes "f") 5 8192 3 true
      (chains (codes "/f") (target ∷ []) ∷ []) 7 16384 4 true first-Opens first-absent (tt, tt)
      again-Opens

-- Every target answers with a SendFileResp, and every write succeeds.
abbrev environment : Environment
environment = record {
  sys = system;
  absolute = λ log p. (pos 0, p);
  request = λ i host port m. answered (make send_resp);
  allocates = λ n. none;
  pwrite = λ w. none;
}

confirmed : (r : Message) → make send_resp ≡ r → r.base.error < 65536
unfolding make new_message to_int16
confirmed r e = subst (λ t. t.base.error < 65536) e (omega arith)

environment-Errors : Errors environment
environment-Errors = record {
  networks = λ i host port m e h. cc;
  responses = λ i host port m r h. confirmed r cc;
  allocations = λ n e h. cc;
  writes = λ w e h. cc;
}

abbrev part : SendFileReq
part = record {
  max_chain_len = 2;
  compress_type = 0;
  origin_size = 4;
  crc32 = 0;
  offset = 0;
  file_token = codes "/f";
}

write_file-Blocks_example :
    WritesBlocks environment 3 (codes "data") 0 (write_file environment 3 (codes "data") 0)
    ⊎ ((length (codes "data") % chunk_base ≢ 0)
        × (size : ℕ) × (e : ℤ) × (environment.allocates size ≡ some e)
        × (write_file environment 3 (codes "data") 0 ≡ (e, [])))
write_file-Blocks_example = write_file-Blocks environment 3 (codes "data") 0 (omega arith)

part-accepted :
    get_error (handle_send_file environment receiving part (codes "data")).0.base ≡ pos 0
unfolding handle_send_file run set_chain_targets create_file create_directories create_fd next_fd
    enter_file get_full_path make_write
part-accepted = refl

handle_send_file-IsDone_example :
    IsDone environment receiving part
      (codes "data")
      (handle_send_file environment receiving part (codes "data")).1
handle_send_file-IsDone_example =
    handle_send_file-IsDone environment environment-Errors receiving part (codes "data")
      part-accepted

abbrev ending : CloseFileReq
ending = record { wait_close = 1; file_token = codes "/f" }

handle_close_file-outcome_example :
    let (sent, resp, m') = handle_close_file environment receiving ending in
    (m' ≡ (close_file environment.sys receiving ending.file_token).0)
    × (has_file m' ending.file_token ≡ false)
    × (get_error resp.base ≡ (
        if has_file receiving ending.file_token
        then pos 0
        else if ending.wait_close == 0
        then pos err_no_file
        else neg enoent))
handle_close_file-outcome_example =
    handle_close_file-outcome environment receiving ending receiving-IsOwner

abbrev params : Params
params = record { directio = false; default_partition = codes "/data"; partitions = [] }

-- A file is created, and then a close without waiting comes for another one.
abbrev requests : List Message
requests =
    make (
      create_req (record {
        chunk_size = 8192;
        file_perm = 0;
        file_size = 5;
        partition = [];
        relative_path = codes "/";
        file_name = codes "f";
      }))
    ∷ make (close_req (record { wait_close = 0; file_token = codes "/g" }))
    ∷ []

run-refines_example :
    let m = run system no_files history in
    (files : Files) × Leads (λ t. none) (calls_of system no_files history) files
    × (((has_file m (codes "/f") ≡ true) × (files (codes "/f") ≡ some (get_fd m (codes "/f") []).1))
        ⊎ ((has_file m (codes "/f") ≡ false)
            × (files (codes "/f") ≡ none)
            × (get_fd m (codes "/f") [] ≡ (negsuc 0, []))))
run-refines_example = run-refines system history (codes "/f") [] (λ log. omega arith)
