-- ===== src/Tests/Client.antt =====
-- The theorems on the client, at concrete files, targets and options.
use fcopy.Base.{
  ℕ, suc, ◌+◌, ◌*◌, ◌≡◌, ◌≢◌, ◌≤◌, ◌<◌, ◌↔◌, refl, List, [], ◌∷◌, ◌++◌, none, some, true, false,
  arith, codes, All, ◌==◌, ◌%◌, ◌^◌,
}
use fcopy.Base.Int.{ℤ, pos}
use fcopy.Wire.Messages.{close_resp}
use fcopy.Wire.Stream.{make}
use fcopy.Net.{RemoteTarget, Apart, answered}
use fcopy.Text.{to_string}
use fcopy.Client.Targets.{colon, parse_target, do_check_self}
use fcopy.Client.Targets.Names.{IsTarget, parse_target-join}
use fcopy.Client.Targets.Check.{Elsewhere, do_check_self-Apart}
use fcopy.Client.Files.{
  FileDesc, Disk, LoadState, loaded, load_files, load_entries, load_entry, load_file, describe,
}
use fcopy.Client.Files.Unique.{Distinct, IsFile, load_files-IsFile}
use fcopy.Client.Sender.{
  SenderParams, FileSender, new_sender, Network, close_tokens, remote_close, chain,
}
use fcopy.Client.Sender.Transfer.{
  Worker, checking, claiming, reading, sending, leaving, done, buffer, go_on, claim, no_more, read,
  confirmed, leave, Transfer, start_transfer, pick, Reach, start, later,
}
use fcopy.Client.Sender.Transfer.Claims.{times_sent}
use fcopy.Client.Sender.Transfer.Coverage.{send_file-once, send_file_complete}
use fcopy.Client.Sender.Transfer.Progress.{Run, here, next, send_file-ends}
use fcopy.Client.Cli.{Opt, main}
use fcopy.Client.Cli.Checked.{IsChecked, main-IsChecked}
use fcopy.Client.Cli.Upload.{remote_close-cleared, main-status}

-- One task sends a file of 3 bytes in a chunk of 8192.
abbrev pub at : ℕ → List (ℕ × ℕ) → Worker → Transfer
at offset sent w = record {
  shared = record { cur_offset = offset; error = pos 0; sent = sent };
  workers = w ∷ [];
}

pub whole_run : Reach 3 8192 1 (at 8192 ((0, 3) ∷ []) done)
whole_run =
    let r1 : Reach 3 8192 1 (at 0 [] checking) = later start (pick [] [] buffer) in
    let r2 : Reach 3 8192 1 (at 0 [] claiming) = later r1 (pick [] [] (go_on refl)) in
    let r3 : Reach 3 8192 1 (at 8192 [] (reading 0)) =
      later r2 (pick [] [] (claim (omega arith))) in
    let r4 : Reach 3 8192 1 (at 8192 [] (sending 0 3)) =
      later r3 (pick [] [] (read 3 (omega arith))) in
    let r5 : Reach 3 8192 1 (at 8192 ((0, 3) ∷ []) checking) = later r4 (pick [] [] confirmed) in
    let r6 : Reach 3 8192 1 (at 8192 ((0, 3) ∷ []) claiming) = later r5 (pick [] [] (go_on refl)) in
    let r7 : Reach 3 8192 1 (at 8192 ((0, 3) ∷ []) (leaving (pos 0))) =
      later r6 (pick [] [] (no_more (omega arith))) in
    later r7 (pick [] [] (leave refl))

send_file-once_example : times_sent 0 ((0, 3) ∷ []) ≤ 1
send_file-once_example = send_file-once 0 (omega arith) whole_run

send_file_complete_example :
    ((k : ℕ) → k * 8192 < 3 → times_sent (k * 8192) ((0, 3) ∷ []) ≡ 1)
    × ((k : ℕ) → 3 ≤ k * 8192 → times_sent (k * 8192) ((0, 3) ∷ []) ≡ 0)
    × ((o : ℕ) → ((k : ℕ) → o ≢ k * 8192) → times_sent o ((0, 3) ∷ []) ≡ 0)
send_file_complete_example =
    send_file_complete (omega arith) (omega arith) whole_run (refl, tt) refl

one_step : Run 3 8192 (start_transfer 1) 1 (at 0 [] checking)
one_step = next here (pick [] [] buffer)

send_file-ends_example : 1 ≤ 1 * 4 + 3 * 4
send_file-ends_example = send_file-ends 1 (omega arith) one_step

abbrev pub first : RemoteTarget
first = record { host = codes "a"; port = 5200 }

abbrev pub second : RemoteTarget
second = record { host = codes "b"; port = 5200 }

named-IsTarget : (c : ℕ) → (c == colon) ≡ false → IsTarget (record { host = c ∷ []; port = 5200 })
named-IsTarget c h = record {
  named = λ e. cc;
  plain = (h, tt);
  port = omega arith;
  word = omega arith;
}

do_check_self-Apart_example :
    (do_check_self (some (codes "c" ∷ [])) (first ∷ second ∷ []) ≡ true)
    ↔ (Elsewhere (codes "c" ∷ []) (first ∷ second ∷ []) × Apart (first ∷ second ∷ []))
do_check_self-Apart_example =
    do_check_self-Apart (codes "c" ∷ []) (first ∷ second ∷ [])
      (named-IsTarget b'a' refl, (named-IsTarget b'b' refl, tt))

-- The port 65616 is read as 80.
parse_target-join_example :
    parse_target (codes "a" ++ (colon ∷ to_string 65616))
    ≡ some (record { host = codes "a"; port = 65616 % 2 ^ 16 })
parse_target-join_example =
    parse_target-join (codes "a") 65616 (λ e. cc) (refl, tt) (omega arith) (omega arith)

-- A file `f`, and no directories.
abbrev disk : Disk
disk = record {
  is_directory = λ p. some false;
  is_regular_file = λ p. some true;
  entries = λ p. none;
  readable = λ p. true;
  filename = λ p. p;
  parent_path = λ p. [];
  canonical = λ p. some p;
  file_size = λ p. some 3;
}

abbrev file : FileDesc
file = record { name = codes "f"; dir = []; path = codes "f"; fullpath = codes "f"; size = 3 }

abbrev found : LoadState
found = record { unique_path = codes "f" ∷ []; files = file ∷ [] }

file-loaded : load_files disk (codes "f" ∷ []) [] ≡ loaded found
unfolding load_files load_entries load_entry load_file describe
file-loaded = refl

load_files-IsFile_example : Distinct (file ∷ []) × All (IsFile disk) (file ∷ [])
load_files-IsFile_example = load_files-IsFile disk (codes "f" ∷ []) found file-loaded

-- An upload that fails, and keeps its parameters.
abbrev recorded : SenderParams → List SenderParams → List SenderParams × ℤ
recorded q qs = (q ∷ qs, pos 5)

abbrev options : List Opt
options =
    Opt.target (codes "a:5200") ∷ Opt.target (codes "b:5200") ∷ Opt.parallel (codes "2000") ∷ []

main-IsChecked_example :
    All IsChecked (main recorded (λ p. none) disk (some []) options (codes "f" ∷ []) []).0
main-IsChecked_example =
    main-IsChecked recorded (All IsChecked) (λ q w c p. (c, p)) (λ p. none) disk (some []) options
      (codes "f" ∷ []) [] ((λ e. cc), ((λ e. cc), ((λ e. cc), tt))) tt

main-status_example :
    (main recorded (λ p. none) disk (some []) options (codes "f" ∷ []) []).1
    ≡ (main (λ q (w : ℕ). (w, pos 0)) (λ p. none) disk (some []) options (codes "f" ∷ []) 0).1
main-status_example =
    main-status recorded (λ q (w : ℕ). (w, pos 0)) (λ p. none) disk (some []) options
      (codes "f" ∷ []) [] 0

-- Every server confirms a close.
abbrev confirming : Network
confirming = record { World = ℕ; request = λ w t m. (suc w, answered (make close_resp)) }

abbrev pub sender : FileSender
sender =
    record (new_sender (record {
      chunk_size = 8192;
      file_path = codes "f";
      partition = [];
      remote_file_dir = codes ".";
      remote_file_name = codes "f";
      direct_io = true;
      wait_close = true;
      parallel = 1;
      send_method = chain;
      targets = first ∷ second ∷ [];
    })) { file_tokens = codes "s" ∷ codes "t" ∷ [] }

remote_close-cleared_example :
    ((remote_close confirming sender 0).1 ≡ pos 0)
    ↔ All
        (λ t. t ≡ [])
        (close_tokens confirming 1 (first ∷ second ∷ []) (codes "s" ∷ codes "t" ∷ []) (pos 0) 0).2
remote_close-cleared_example = remote_close-cleared confirming sender 0 (omega arith)
