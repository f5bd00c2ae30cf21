-- ===== src/Client/Targets.antt =====
-- The targets of src/client/fcopy_cli.cpp: parse_target, parse_targets and do_check_self.
pub mod Names
pub mod Check
use fcopy.Base.{
  ℕ, zero, suc, ◌+◌, ◌<◌, ◌≡◌, ◌≢◌, Bytes, bytes_eq, List, [], ◌∷◌, ◌++◌, Option, none, some, Bool,
  true, false, if◌then◌else◌, ◌==◌, ◌||◌,
}
use fcopy.Base.Int.{to_int16}
use fcopy.Net.{RemoteTarget}
use fcopy.Text.{hash, skip_space, lines, atoi, to_string}

abbrev pub colon : ℕ
colon = 58

-- What stands before and behind the first colon.
unfoldable pub split_colon : Bytes → Option (Bytes × Bytes)
split_colon [] = none
split_colon (c ∷ str) = elim (c == colon) [
  | true ↦ some ([], str)
  | false ↦ elim (split_colon str) [ none ↦ none | some (host, rest) ↦ some (c ∷ host, rest) ]
]

-- parse_target: the target that it appends. The port is converted to unsigned short.
unfoldable pub parse_target : Bytes → Option RemoteTarget
unfolding split_colon to_int16
parse_target arg = elim (split_colon arg) [
  | none ↦ none
  | some ([], rest) ↦ none
  | some (c ∷ host, rest) ↦
      let port = to_int16 (atoi rest) in
      if port == 0 then none else some (record { host = c ∷ host; port = port })
]

-- The loop of parse_targets: the targets with those appended, and its result.
unfoldable pub parse_lines : List Bytes → List RemoteTarget → List RemoteTarget × Bool
unfolding parse_target
parse_lines [] targets = (targets, true)
parse_lines (line ∷ rest) targets = elim (skip_space line) [
  | [] ↦ parse_lines rest targets
  | c ∷ arg ↦ elim (c == hash) [
    | true ↦ parse_lines rest targets
    | false ↦ elim (parse_target (c ∷ arg)) [
      | none ↦ (targets, false)
      | some t ↦ parse_lines rest (targets ++ (t ∷ []))
    ]
  ]
]

-- parse_targets, for the text of the file if it can be opened.
unfoldable pub parse_targets : Option Bytes → List RemoteTarget → List RemoteTarget × Bool
unfolding parse_lines lines
parse_targets none targets = (targets, false)
parse_targets (some text) targets = parse_lines (lines text) targets

-- Membership in a std::set of strings.
unfoldable pub contains : Bytes → List Bytes → Bool
contains s [] = false
contains s (t ∷ ts) = bytes_eq s t || contains s ts

-- The first loop of do_check_self.
unfoldable pub avoids : List Bytes → List RemoteTarget → Bool
unfolding contains
avoids addrs [] = true
avoids addrs (t ∷ targets) =
    let rest = avoids addrs targets in if contains t.host addrs then false else rest

-- host:port
abbrev pub target_name : RemoteTarget → Bytes
target_name t = t.host ++ (colon ∷ to_string t.port)

-- The second loop, with the names that are in the set.
unfoldable pub no_duplicate : List Bytes → List RemoteTarget → Bool
unfolding contains
no_duplicate names [] = true
no_duplicate names (t ∷ targets) =
    let rest = no_duplicate (target_name t ∷ names) targets in
    if contains (target_name t) names then false else rest

-- do_check_self, for what get_local_addr answers.
unfoldable pub do_check_self : Option (List Bytes) → List RemoteTarget → Bool
unfolding avoids no_duplicate
do_check_self none targets = false
do_check_self (some addrs) targets = if avoids addrs targets then no_duplicate [] targets else false
