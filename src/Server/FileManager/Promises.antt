-- ===== src/Server/FileManager/Promises.antt =====
-- The abstract files of FileManager in src/server/file_manager.h, and what a call may do to them.
use fcopy.Base.{◌≡◌, ◌≢◌, ◌⊎◌, Bytes, bytes_eq, List, [], ◌∷◌, Option, none, some, if◌then◌else◌}
use fcopy.Base.Int.{ℤ, pos, negsuc, neg}
use fcopy.Base.Errno.{enoent}
use fcopy.Wire.Messages.{ChainTarget}
use fcopy.Server.FileManager.{FileInfo, FileManager, find, Operation, creates, closes, chains}

-- The abstract files: the targets of a token that is in use.
abbrev pub Files : Type 0
Files = Bytes → Option (List ChainTarget)

abbrev pub targets_of : Option FileInfo → Option (List ChainTarget)
targets_of none = none
targets_of (some info) = some info.targets

abbrev pub view : FileManager → Files
view m token = targets_of (find token m.fmap)

-- Only what stands for the token changes.
abbrev pub Changes : Bytes → Option (List ChainTarget) → Files → Files → Type 0
Changes token entry files files' =
    (t : Bytes) → files' t ≡ (if bytes_eq token t then entry else files t)

abbrev pub Same : Files → Files → Type 0
Same files files' = (t : Bytes) → files' t ≡ files t

-- What a call may answer, and what it does. A file is created under a token that is not in use, and
-- any other answer leaves all files alone; a file that is not there is told from one that is.
abbrev pub Allows : Files → Operation → ℤ × Bytes → Files → Type 0
Allows files (creates name size chunk_size directio) (result, token) files' =
    ((result ≡ pos 0) × (files token ≡ none) × Changes token (some []) files files')
    ⊎ ((result ≢ pos 0) × Same files files')
Allows files (closes token) (result, text) files' =
    ((result ≡ pos 0) × (files token ≢ none) × Changes token none files files')
    ⊎ ((result ≡ neg enoent) × (files token ≡ none) × Same files files')
Allows files (chains token targets) (result, text) files' =
    ((result ≡ pos 0) × (files token ≢ none) × Changes token (some targets) files files')
    ⊎ ((result ≡ negsuc 0) × (files token ≡ none) × Same files files')

abbrev pub Call : Type 0
Call = Operation × ℤ × Bytes

-- Files that the calls with these answers can lead to.
abbrev pub Leads : Files → List Call → Files → Type 0
Leads files [] files' = Same files files'
Leads files ((op, result, text) ∷ calls) files' =
    (next : Files) × Allows files op (result, text) next × Leads next calls files'
