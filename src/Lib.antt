-- ===== src/Lib.antt =====
-- A verification library of SentinelFS, a distributed file system: a metadata server keeps the tree of
-- files (the namespace) and knows on which data nodes the replicas of each chunk are (the chunk
-- manager); the data nodes keep the chunks on their disks (the chunk store), and send heartbeats and
-- health reports, from which the metadata server predicts which node will fail (the monitor and the
-- predictor) and moves its chunks elsewhere (the migrator); a client splits a file into chunks, sends
-- them to the nodes that the metadata server names, and reads them back.
--
-- Which file models which part:
--   Config, Config/Risk       internal/common/config.go: the constants, NodeStatus, RiskToStatus
--   Chunks                    internal/common/utils.go: GenerateChunkID, DataChecksum
--   Client/Split              internal/common/utils.go: ChunkFile, ReassembleChunks;
--                             internal/client/transfer.go: readAndChunkFile
--   Sorting                   sort.Slice, as insertion sort, which it is up to 12 elements; of elements
--                             that all differ in the order, every sort makes the same list
--   Float64                   float64 as its bits, with its comparisons. Arith: its arithmetic by
--                             IEEE 754. Format: how fmt prints it.
--   ChunkManager              internal/metaserver/chunk_manager.go. State: the records. Nodes:
--                             RegisterNode, UpdateHeartbeat, UpdateNodeHealth, CheckDeadNodes,
--                             healthyNodes. Placement: AllocateChunks, selectNodes. Locations:
--                             GetChunkLocations, GetUnderReplicatedChunks. Replicas: RemoveChunks,
--                             AddChunkToNode, RemoveChunkFromNode, UpdateChunkChecksum. Stats:
--                             GetClusterStats. Invariant: all of them as steps of one state.
--   Namespace                 internal/metaserver/namespace.go. Paths: splitPath, cleanPath. Tree:
--                             the tree, mkdirAll, resolveDir. Files: CreateFile, GetFile, DeleteFile,
--                             ListDir, FileExists, GetAllFiles.
--   DataNode/Store            internal/datanode/store.go: every operation of ChunkStore
--   DataNode/Health           internal/datanode/health.go: HealthCollector
--   DataNode/Admin            internal/datanode/admin.go: the handlers of its requests
--   DataNode/Server           internal/datanode/server.go: the requests, the transfer to another node,
--                             the messages to the metadata server. Cluster: nodes that call each
--                             other.
--   Health                    internal/health. Locator, Migrator: migrator.go. Metrics: metrics.go.
--                             Monitor: monitor.go. Regression, Prediction, Predictor: predictor.go.
--   MetaServer                internal/metaserver/server.go. Messages: the requests and responses.
--                             FileRequests, NodeRequests: the handlers. Steps: the handlers, the
--                             background routines and the writes of a migration as steps.
--                             Monitoring: ReportHealth, predictionLoop, deadNodeChecker. Adapter:
--                             internal/metaserver/locator_adapter.go. Migration: the migrator on the
--                             chunk manager. Readback: GetFile after PutFile. Admin:
--                             internal/metaserver/admin.go.
--   Client                    internal/client/transfer.go. Fetch: fetchChunkFromNodes. Upload:
--                             uploadChunks. Download: downloadChunks. Files, RoundTrip: PutFile,
--                             GetFile and DeleteFile of internal/client/client.go. System: the
--                             client, the metadata server and the data nodes together.
--   Examples                  tests, and the theorems at concrete inputs
--   Prelude                   what the others share
-- In each of them a method `DoThis` is the function `do_this`, its receiver an argument, and the new
-- state a part of the result. A method that holds the lock of its object is one step.
--
-- Numbers are natural numbers: an int64 is its 64 bits and wraps around at 2 ^ 64; a float64 is its 64
-- bits, every operation on it rounded to nearest even, as on amd64; a time is its nanoseconds. A string
-- is the list of its bytes. A Go map is an association list; its order is the order in which `range`
-- meets the entries, and `reorders` of ChunkManager/Invariant/Steps lets it change between any two
-- operations. Fuel is only used by the reads of a file (one for each byte), by the scaling of a
-- float64 (the 12 bits of an exponent) and by its square root (the bits of the largest one). The
-- goroutines of an upload run under a schedule, a list of whose turn it is.
--
-- SHA-256 is a parameter, of which nothing is assumed, and so are the calls between the servers: what
-- a theorem assumes of them stands in its statement. DataNode/Server/Cluster joins the data nodes by
-- calls that may be lost. What the operating system answers to a read, a write or a removal, the random
-- numbers and the clocks are arguments of the operations.
--
-- A handler of the metadata server is one step here, but for GetFile, which MetaServer/FileRequests also
-- has with other requests between its reads: that another call comes between the calls of another
-- handler is not modelled. GetChunk of a data node is one step too, though it reads the file after it
-- has released the lock. So is a prediction, which reads one state of the metrics. The
-- migrations interleave: with each other in Health/Migrator/Exclusion, with all operations of the
-- chunk manager in MetaServer/Migration.
--
-- Not modelled: the gRPC and HTTP servers, the tickers, the commands of the client that print, the
-- main programs and the generated code of proto/. Log messages, the texts of errors and the locks
-- themselves have no counterpart; nor has a lack of memory. An allocation of more than 2 ^ 45 chunks,
-- and a message of progress on a short chunk id, panic as in the code.
pub mod Prelude
pub mod Float64
pub mod Config
pub mod Sorting
pub mod Chunks
pub mod ChunkManager
pub mod Namespace
pub mod DataNode
pub mod Health
pub mod MetaServer
pub mod Client
pub mod Examples
