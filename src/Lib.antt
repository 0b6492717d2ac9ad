-- ===== src/Lib.antt =====
-- A model of SpkDFS, a distributed file system in C++. Namenodes keep the tree of files and
-- directories, datanodes keep blocks; clients ask the namenodes where blocks belong and talk to
-- the datanodes themselves.
--
-- The parts, and the files that model them:
--
--   Exn, Reply     `MessageException` of include/common/exception.h, the error codes and `Response`
--                  of src/common/service.proto, and the `catch` clauses of the handlers. A call
--                  returns, throws, or ends the process at an assertion (`Result`).
--   Text, FsPath   `std::string` as its bytes, with `std::getline`, `std::to_string`, `std::stoi`;
--                  `std::filesystem::path` as far as `simplify_path` of src/common/utils.cpp and the
--                  names of inodes use it.
--   Node           include/common/node.h, src/common/node.cpp: addresses and their texts.
--   Storage        the storage types of include/common/inode.h and src/common/inode.cpp: their text
--                  and JSON forms, and encoding and decoding of blocks.
--   Fragments      `encode_one_sub` and `decode_one_sub` of src/common/inode.cpp.
--   Inode          the inode of the same files, its lock and its JSON form.
--   RocksDb        src/node/rocksdb.cpp: inodes in a key-value store, keyed by path. A namenode
--                  checks a request with a `prepare_*` function, and applies what was agreed with an
--                  `internal_*` function. RocksDb/Tree is the abstract view, an inode or none at
--                  each path, and RocksDb/Refinement relates the two.
--   RaftNn         src/node/raft_nn.cpp: the log of the namenodes and how it is applied. RaftNn/Replay
--                  is the log's effect on a tree of inodes, RaftNn/Replicas the namenodes that apply
--                  it and save and load snapshots, RaftNn/Peers the class but for its log.
--   Namenode       src/node/namenode.cpp: the handlers. A call that changes the tree ends with the
--                  bytes of a log entry, or with an answer; `apply_entry` of RaftNn applies them.
--   RaftDn         src/node/raft_dn.cpp: choosing the namenodes among the datanodes, watching them;
--                  RaftDn/Agreement follows a choice from the leader to every server.
--   ReadFile       `read_file` of src/common/utils.cpp, with the size of the file as an `int`.
--   MyIp           `get_my_ip` and `get_all_ips` of src/common/utils.cpp.
--   Server         src/node/server.cpp: a server's start, and starting and stopping a namenode when the
--                  list changes.
--   Timer, Clock   `IntervalTimer`, whose thread and `stop()` take their steps in any order, and the
--                  time of src/common/utils.cpp and include/common/utils.h.
--   Datanode       src/node/datanode.cpp: blocks as files.
--   PathLocks      src/common/pathlocks.cpp: the client's locks.
--   Sdk            src/client/sdk.cpp: Transfer moves a block to the datanodes and back, Indexes says
--                  which blocks a range stands in, Read and Write go through the files that keep an
--                  open file's blocks, Fsync sends the written ones, Whole puts and gets whole
--                  files, Session opens, truncates and closes a path, Connect chooses the namenodes,
--                  Renewal renews the leases, and Calls makes and lists directories;
--                  Sdk/Calls/Served joins these with the handlers of Namenode.
--   Fuse           src/client/fuse.cpp: the connection to a node, the second attempt after a failure,
--                  and in Fuse/Calls the callbacks of libfuse.
--   Json, KvStore  nlohmann::json and rocksdb, which the sources only call: records of operations,
--                  with what their manuals promise as hypotheses. liberasurecode stands in
--                  Storage/Coding, the file system of a datanode in Datanode.
--   Prelude        shared names and lemmas; Tests instantiates every parameter and applies each
--                  result at a concrete input.
--
-- Numbers are natural numbers; `int` is the integers with the bounds of 32 bits where a text or
-- JSON is read or a 64-bit number is converted, and ends the process where the size of a block
-- overflows it; sums of 64-bit times and offsets wrap.
--
-- Four loops are on fuel: the choice of namenodes, whose fuel is the number of datanodes, since a
-- round passes at least one of them; the loop of `put`, for which the length of the file is enough;
-- the renewal of leases, for which four attempts are enough; and the upload of fragments, whose
-- fuel is an argument, since it need not end.
--
-- Not modelled: of the client's SDK the locks of blocks and a session on several paths; braft,
-- brpc and protobuf, of which a call's arguments and answers, the order of the log and the
-- snapshot that was saved last are kept; a namenode that restarts without a snapshot or is sent
-- one; files of 2 GiB and more that `fsync` reads; hashes, listing and clearing directories, command lines and logging.
-- Assertions end the process, as in the debug build that CMakePresets.json chooses; what the
-- language leaves undefined does so too, unless it has a case of its own.
pub mod Prelude
pub mod Exn
pub mod Text
pub mod FsPath
pub mod Node
pub mod Json
pub mod Storage
pub mod Fragments
pub mod Inode
pub mod KvStore
pub mod RocksDb
pub mod ReadFile
pub mod Reply
pub mod RaftNn
pub mod Namenode
pub mod RaftDn
pub mod PathLocks
pub mod MyIp
pub mod Server
pub mod Timer
pub mod Clock
pub mod Sdk
pub mod Fuse
pub mod Datanode
pub mod Tests
