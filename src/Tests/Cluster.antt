-- ===== src/Tests/Cluster.antt =====
-- The theorems on several servers: a chain of two, at which a file of 3 bytes is created.
use fcopy.Base.{
  ℕ, ◌≡◌, refl, List, [], none, some, false, Bytes, arith, codes, All, subst, ap, ◌∷◌, length,
}
use mathlib.Core.List.{Mem}
use fcopy.Base.Int.{pos}
use fcopy.Wire.Messages.{Command, ChainTarget, SendFileReq, send_req}
use fcopy.Wire.Head.{MessageBase}
use fcopy.Wire.Stream.{make}
use fcopy.Net.{RemoteTarget, Apart, reply_error}
use fcopy.Server.FileManager.{
  FileInfo, find, no_files, create_file, create_directories, create_fd, enter_file, get_full_path,
  get_token,
}
use fcopy.Server.Service.{process, create_at, get_partition_dir, get_abs_path}
use fcopy.Cluster.{Node, Nodes, ask}
use fcopy.Cluster.Delivery.{NodeErrors, Delivered, ask-Delivered}
use fcopy.Cluster.Reaching.{Works, Ready, ask-Ready}
use fcopy.Cluster.Setup.{Opens}
use fcopy.Cluster.Session.{servers, Serves}
use fcopy.Cluster.Errors.{AllErrors, AllWorks}
use fcopy.Cluster.Everywhere.{Stored}
use fcopy.Cluster.Writes.{Placed, message_writes}
use fcopy.Cluster.Sending.{Prepared, peers_of, create_remote-Prepared, sent-answered}
use fcopy.Cluster.WholeFile.{Confirmed, send_file-Stored}
use fcopy.Client.Sender.{FileSender, create_remote, chunk_request}
use fcopy.Client.Sender.Transfer.{done}
use fcopy.Tests.Server.{system, next_fd}
use fcopy.Tests.Client.{at, first, second, sender, whole_run}

abbrev node : Node
node = record {
  manager = no_files;
  params = record { directio = false; default_partition = codes "/data"; partitions = [] };
  sys = system;
  absolute = λ log p. (pos 0, p);
  allocates = λ n. none;
  pwrite = λ w. none;
}

-- Such a server at every address.
abbrev nodes : Nodes
nodes host port = some node

node-NodeErrors : NodeErrors node
node-NodeErrors = record { allocations = λ n e h. cc; writes = λ w e h. cc }

nodes-AllErrors : AllErrors nodes
nodes-AllErrors h p other there =
    let same : node ≡ other = cc in subst NodeErrors same node-NodeErrors

nodes-AllWorks : AllWorks nodes
nodes-AllWorks h p other there =
    let same : node ≡ other = cc in
    subst Works same (record { allocates = λ n. refl; writes = λ w. refl })

node-Opens : Opens node
node-Opens = record {
  errnos = λ log path flag failed. (omega arith, omega arith);
  paths = λ log path. omega arith;
}

node-Serves : (t : RemoteTarget) → Serves nodes t
node-Serves t = (node, refl, node-Opens)

abbrev opening : FileSender
opening = record sender { file_size = 3 }

abbrev created : Nodes × FileSender
created = create_remote (servers (pos 110) 1) opening nodes

abbrev token : Bytes
token = codes "//data.f"

-- What create_file leaves of the sender.
abbrev opened : FileSender
opened = record opening { file_tokens = token ∷ token ∷ [] }

created-opened : create_remote (servers (pos 110) 1) opening nodes ≡ (created.0, opened)
unfolding create_remote reply_error ask process create_at get_partition_dir get_abs_path create_file
    create_directories create_fd next_fd enter_file get_full_path get_token
created-opened = refl

targets-Apart : Apart opening.params.targets
targets-Apart = ((refl, tt), (tt, tt))

targets-Serves : All (Serves nodes) opening.params.targets
targets-Serves = (node-Serves first, (node-Serves second, tt))

create_remote-Prepared_example : Prepared created.0 created.1
create_remote-Prepared_example =
    create_remote-Prepared (pos 110) 1 opening nodes targets-Apart targets-Serves
      (ap (λ (x : Nodes × FileSender). x.1.error) created-opened)

-- What pread gives for a chunk of n bytes.
abbrev bytes : ℕ → ℕ → Bytes
bytes o n = codes "abc"

sent-answered_example :
    reply_error Command.send_file_resp
      (ask
        (pos 110)
        2
        created.0
        first.host
        first.port
        (chunk_request opened.params token 0 (codes "abc"))).1
    ≡ pos 0
sent-answered_example =
    sent-answered (pos 110) 1 opening opened nodes created.0 targets-Apart targets-Serves
      created-opened refl first token (codes "abc") 0 refl refl nodes-AllWorks (omega arith)
      (omega arith)

first-answered :
    Confirmed
      (pos 110)
      1
      opening
      opened
      nodes
      created.0
      targets-Apart
      targets-Serves
      (omega arith)
      refl
      nodes-AllErrors
      created-opened
      refl
      first
      token
      refl
      refl
      bytes
      (0, 3)
first-answered =
    sent-answered (pos 110) 1 opening opened nodes created.0 targets-Apart targets-Serves
      created-opened refl first token (codes "abc") 0 refl refl nodes-AllWorks (omega arith)
      (omega arith)

-- The writes that the request for the chunk leads to.
abbrev made : ℕ → List Placed
made nbytes =
    message_writes (pos 110) 2 created.0 first.host first.port
      (chunk_request opened.params token 0 (bytes 0 nbytes))

send_file-Stored_example :
    (nbytes : ℕ) × Mem (0, nbytes) (at 8192 ((0, 3) ∷ []) done).shared.sent
    × (length (made nbytes) ≡ length opened.params.targets)
    × All (Stored created.0 (made nbytes) (bytes 0 nbytes) 0) (peers_of opened)
send_file-Stored_example =
    send_file-Stored (pos 110) 1 opening opened nodes created.0 targets-Apart targets-Serves
      (omega arith) refl nodes-AllErrors created-opened refl first token refl refl bytes
      (omega arith) (omega arith) whole_run (refl, tt) (first-answered, tt) refl 0 (omega arith)

abbrev entry : Bytes → List ChainTarget → FileInfo
entry name targets = record {
  fd = 3;
  chunk_size = none;
  total_size = 3;
  file_name = name;
  file_path = name;
  file_token = name;
  targets = targets;
}

-- A server with a file `t`, which goes on to a file `u` of another server like it.
abbrev keeping : Node
keeping = record node {
  manager = record {
    fmap =
        (
          codes "t",
          entry (codes "t") (record { host = codes "b"; port = 5200; file_token = codes "u" } ∷ []),
        )
        ∷ (codes "u", entry (codes "u") [])
        ∷ [];
    log = [];
  };
}

abbrev keepers : Nodes
keepers host port = some keeping

keeping-Works : Works keeping
keeping-Works = record { allocates = λ n. refl; writes = λ w. refl }

keepers-Ready : Ready 2 keepers (codes "t") (codes "a") 5200
unfolding find
keepers-Ready = (
  keeping,
  refl,
  _,
  refl,
  keeping-Works,
  ((keeping, refl, entry (codes "u") [], refl, keeping-Works, tt), tt),
)

abbrev part : SendFileReq
part = record {
  max_chain_len = 2;
  compress_type = 0;
  origin_size = 3;
  crc32 = 0;
  offset = 0;
  file_token = codes "t";
}

abbrev head : MessageBase
head = (make (send_req part)).base

ask-Ready_example :
    reply_error Command.send_file_resp
      (ask (pos 110) 2 keepers (codes "a") 5200 (record { base = head; payload = send_req part })).1
    ≡ pos 0
ask-Ready_example =
    ask-Ready (pos 110) 2 2 keepers head part (codes "a") 5200 (omega arith) (omega arith)
      (omega arith) keepers-Ready

keepers-AllErrors : (h : Bytes) (p : ℕ) (other : Node) → keepers h p ≡ some other → NodeErrors other
keepers-AllErrors h p other there =
    let same : keeping ≡ other = cc in
    subst NodeErrors same (record { allocations = λ n e k. cc; writes = λ w e k. cc })

ask-Delivered_example : Delivered (pos 110) 2 keepers part head.data_view (codes "a") 5200
ask-Delivered_example =
    ask-Delivered (pos 110) (omega arith) refl 2 keepers head part (codes "a") 5200
      keepers-AllErrors
      (ask-Ready (pos 110) 2 2 keepers head part (codes "a") 5200 (omega arith) (omega arith)
        (omega arith) keepers-Ready)
