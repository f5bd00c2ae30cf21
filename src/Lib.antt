-- ===== src/Lib.antt =====
-- fcopy: the wire protocol, the receiving server and the sending client of a program that
-- copies files to several hosts.
--
-- A client (src/client) reads files in chunks and sends each chunk as a message to one or more
-- servers. A server (src/server) keeps the files that are being received in a FileManager,
-- writes each chunk at its offset, and passes it on to the targets that were set for the file.
-- Both sides speak the messages of src/common/message.h, which workflow writes and parses
-- through FcopyMessage.
--
-- Files:
--   Base, Base/* - shared names, tests on numbers, lists measured by native numbers, byte
--     strings, signed integers and int16_t, errno values and src/common/error_code.h.
--   Text - what the sources use of the C++ library to read and print texts: std::isspace,
--     std::getline, std::atoi, std::atol, std::stoll and std::to_string.
--   Wire/Ints - byte_swap, append_int, decode_int and the string forms of
--     src/common/message.cpp. An integer of k bytes is a number below 256 ^ k; the byte order
--     of the host is an argument. Ints/Network and Ints/Fields compare them with big-endian
--     layouts.
--   Wire/Messages, Wire/Bodies - the message classes of src/common/message.h with their
--     members, create_message, and encode_body and decode_body of each class. Bodies/Format is
--     a description of the layouts apart from the code; Bodies/RoundTrip and Bodies/Canonical
--     are about the two directions.
--   Wire/Head - MessageBase, its setters, encode_head and decode_head.
--   Wire/Stream - FcopyMessage::encode, FcopyMessage::append and MessageBase::append_body, as
--     functions from a state of the object and a chunk of bytes to the next state, a finished
--     message or an errno. Stream/Copies, Parts and Chunks are about the chunks of a
--     connection, Sent and Delivery about a message on its way, Limit about the size limit,
--     Buffers and Bounds about the buffers.
--   Net - FcopyClient::request of src/common/co_fcopy.h as its callers see it: the error of
--     the task, or the response.
--   Server/FileManager - FileManager of src/server/file_manager.cpp. The state is the map of
--     open files and a log of the system calls made; what the system answers, paths and the
--     hash are a record of parameters. FileManager/Entries, Ownership, Tokens and Created are
--     about the map, the descriptors, the tokens and the result of create_file, Again about a
--     second create_file for a file, Promises and Refinement about an abstract map of tokens.
--   Server/Service - FcopyService of src/server/service.cpp: process, its handlers,
--     write_file, send_chain and send_one, and get_abs_path of src/common/utils.cpp. Responses
--     of other servers, aligned_alloc and pwrite are parameters. Service/Padding, Forwarding,
--     Closing and Invariant are about the writes, the requests passed on, the two ways to
--     close, and the requests of a whole run.
--   Server/Overlap - create, close and send requests of the service that overlap, as a step
--     relation: one step for each call that the mutex or the system makes whole, over the map,
--     the descriptors that are open and the writes made. Overlap/Held and Owners are about who
--     holds a descriptor, Stray about a write to the wrong file, Aims and Waiting about the
--     writes if closes wait for them.
--   Server/Config - unescape and parse_line of src/server/load_config.cpp: a line of a
--     configuration file to its tokens. Config/Values has parse_bool, parse_signed,
--     parse_size, parse_string and parse_partition, with std::stold as a parameter, and
--     Config/Load the keys and the loop of load_service_config over FcopyConfig of
--     src/common/structures.h. Config/Quotes is about quoted tokens and the fuel of the loop;
--     Words, Numerals, Settings, Steps and Written about a configuration that is written as a
--     file, Refused about the line of an error.
--   Server/Main - init_config and main of src/server/fcopy_server.cpp, from the answers of
--     getopt_long to the parameters of the service, with the file system as a record of
--     parameters. Main/Ports is about the port, Main/Settled about a configuration file that
--     states all of the parameters.
--   Server/Life - start, wait, notify and stop of the service as steps of main, with signals
--     in any places between them; Life/Running is about what a started service has and
--     Life/Stopping about its end.
--   Client/Sender - FileSender of src/client/file_sender.cpp over a network that answers one
--     request after the other: create_file with remote_open and the links of a chain or a
--     tree, close_file with remote_close, and the request of a chunk. Sender/Transfer has
--     send_file: the tasks of parallel_send as a step relation on the members that they share,
--     one step per wait, lock or test. Transfer/Claims, Coverage and Progress are about the
--     chunks claimed and sent and about the end of the tasks.
--   Client/Targets, Client/Cli - src/client/fcopy_cli.cpp: parse_target, parse_targets and
--     do_check_self, and the options, main and upload_file. Targets/Names and Targets/Check
--     are about the names of targets and the check, Cli/Checked and Cli/Upload about what main
--     starts and what it returns.
--   Client/Files - load_files of src/common/utils.cpp with its walk through directories, and
--     Files/Unique about its list.
--   Cluster - servers at several addresses that answer the client and one another. Delivery
--     and Reaching are about one chunk on its way through them, Setup, Session, Links, Errors,
--     Spread, Followers and Everywhere about create_file over them and what its links mean, Writes,
--     Heap and Once about the writes that one chunk leads to at all of them, Sending and WholeFile about
--     FileSender and all servers together.
--   Tests - the concrete messages, connections and files that the theorems are applied to.
--
-- Bounds and fuel: the loop of parse_line runs on fuel, one unit more than the line has
-- characters, which is enough since each round takes at least one. A request is passed on over
-- a number of hops in Cluster; as many as there are targets are enough for the chunks of
-- FileSender. load_dir recurs on the levels that max_depth leaves. to_string has 20 digits,
-- enough for uint64_t. All other loops are recursion on the list, the count or the message
-- they go through. uint32_t, uint16_t and size_t wrap where the source lets them: the lengths
-- of a head, the sum that is held against the size limit, the length of a body in encode,
-- max_chain_len - 1, and the rounding of a write.
--
-- The FileManager theorems take the calls one after the other, as its mutex makes them for
-- create_file, set_chain_targets and the part of close_file that changes the map. The theorems
-- of Server/Service take each request to its end before the next. In Server/Overlap requests
-- overlap; there a file stands for the token of its path, and what the requests answer, the
-- chain targets and the result of ftruncate at the end are left out. In Cluster, servers that
-- a chunk is passed on to only write, so that the state of one server changes with each
-- request of the client. send_file's tasks are interleaved in all orders; the errors that its
-- calls report are taken as not 0, and a file that changes while it is sent is not looked at:
-- pread may give any bytes. A response counts as sent when its handler ends, but for
-- handle_close_file, which gives the state at the reply as well.
--
-- A signal is taken as one step that clears `running`, and the wait of main as one that goes
-- on once it is cleared; the steps of start stand in the order of the code, and what
-- server->start returns is an argument. getopt_long may answer differently in its two loops.
--
-- Not modelled: daemon, usage and the settings of coke in the main program of the server; the
-- creation of network tasks in src/common/co_fcopy.cpp; getopt_long, whose answers are the
-- input of parse_args; the speed limiter and the time measured in src/client; parse_unsigned
-- of src/server/load_config.cpp, which no key uses; logging, local addresses and number
-- formatting, which are output; and in Cluster chunks on their way while files are created or
-- closed.
pub mod Base
pub mod Text
pub mod Wire
pub mod Net
pub mod Server
pub mod Client
pub mod Cluster
pub mod Tests
